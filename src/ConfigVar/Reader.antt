-- ===== src/ConfigVar/Reader.antt =====
-- The variables of a file: what `toVar` has written, `loadFromVar` reads.
use encfs.Base.{
  ℕ, ◌<◌, Bool, true, false, List, [], ◌∷◌, ◌++◌, length, All, append-nil, append_assoc, Option,
  some, if◌then◌else◌, ◌≡◌, refl, sym, ap, ◌∙◌, arith,
}
use encfs.Cipher.Ssl.{◌>>=◌}
use encfs.ConfigVar.{
  ConfigVar, Vars, reset_offset, write, write_int, read_int, read_string, write_entries, to_var,
  same_name, insert_var, take_entry, load_entries, load_from_var,
}
use encfs.ConfigVar.Text.{
  code, at_place, at_end, text_code, write-at_end, write_int-at_end, read_int_lem, read_string_lem,
}

-- No name is empty, and the names and values have sizes that `writeInt` can write.
abbrev pub IsEntry : List ℕ × List ℕ → Type 0
IsEntry (key, value) = (0 < length key) × (length key < 0x80000000) × (length value < 0x80000000)

-- None of these names stands before, in `vars` or among them.
abbrev pub Apart : Vars → Vars → Type 0
Apart vars [] = Unit
Apart vars ((key, value) ∷ more) =
    All (λ e. same_name e.0 key ≡ false) vars × Apart (vars ++ (key, value) ∷ []) more

-- The bytes of the entries.
entries_code : Vars → List ℕ
entries_code [] = []
entries_code ((key, value) ∷ vars) = text_code key (text_code value (entries_code vars))

write_entries_lem :
    (buf : List ℕ) (vars : Vars)
    → write_entries (at_end buf) vars ≡ at_end (buf ++ entries_code vars)
unfolding entries_code
write_entries_lem buf [] = ap at_end (sym (append-nil buf))
write_entries_lem buf ((key, value) ∷ vars) =
    let b1 = buf ++ code (length key) in
    let b2 = b1 ++ key in
    let b3 = b2 ++ code (length value) in
    let b4 = b3 ++ value in
    ap
      (λ (v : ConfigVar). write_entries (write (write_int (write v key) (length value)) value) vars)
      (write_int-at_end buf (length key))
    ∙ ap (λ (v : ConfigVar). write_entries (write (write_int v (length value)) value) vars)
        (write-at_end b1 key)
    ∙ ap (λ (v : ConfigVar). write_entries (write v value) vars)
        (write_int-at_end b2 (length value))
    ∙ ap (λ (v : ConfigVar). write_entries v vars) (write-at_end b3 value)
    ∙ write_entries_lem b4 vars
    ∙ ap at_end (
        append_assoc b3 value (entries_code vars)
        ∙ append_assoc b2 (code (length value)) (value ++ entries_code vars)
        ∙ append_assoc b1 key (text_code value (entries_code vars))
        ∙ append_assoc buf (code (length key)) (key ++ text_code value (entries_code vars)))

insert_new :
    (key value : List ℕ) (vars : Vars)
    → All (λ e. same_name e.0 key ≡ false) vars
    → insert_var key value vars ≡ vars ++ (key, value) ∷ []
insert_new key value [] h = refl
insert_new key value ((k, v) ∷ vars) h =
    ap (λ (b : Bool). if b then (k, v) ∷ vars else (k, v) ∷ insert_var key value vars) h.0
    ∙ ap (◌∷◌ (k, v)) (insert_new key value vars h.1)

take_some :
    (loop : ConfigVar → Vars → Option (Vars × Bool)) (vars : Vars) (v : ConfigVar)
    (key value : List ℕ)
    → 0 < length key
    → take_entry loop vars v key value ≡ loop v (insert_var key value vars)
take_some loop vars v [] value h = absurd (omega arith)
take_some loop vars v (x ∷ key) value h = refl

load_entries_lem :
    (front : List ℕ) (vars more : Vars)
    → All IsEntry more
    → Apart vars more
    → load_entries (length more) (at_place front (entries_code more)) vars
      ≡ some (vars ++ more, true)
unfolding load_entries entries_code
load_entries_lem front vars [] entries apart =
    ap (λ (t : Vars). some (let p : Vars × Bool = (t, true) in p)) (sym (append-nil vars))
load_entries_lem front vars ((key, value) ∷ more) entries apart =
    let rest = entries_code more in
    let f1 = (front ++ code (length key)) ++ key in
    let f2 = (f1 ++ code (length value)) ++ value in
    ap
      (λ (o : Option (ConfigVar × List ℕ)). o >>= λ p.
        read_string p.0 >>= λ q. take_entry (load_entries (length more)) vars q.0 p.1 q.1)
      (read_string_lem front (text_code value rest) key entries.0.1)
    ∙ ap
        (λ (o : Option (ConfigVar × List ℕ)).
          o >>= λ q. take_entry (load_entries (length more)) vars q.0 key q.1)
        (read_string_lem f1 rest value entries.0.2)
    ∙ take_some (load_entries (length more)) vars (at_place f2 rest) key value entries.0.0
    ∙ ap (load_entries (length more) (at_place f2 rest)) (insert_new key value vars apart.0)
    ∙ load_entries_lem f2 (vars ++ (key, value) ∷ []) more entries.1 apart.1
    ∙ ap (λ (t : Vars). some (let p : Vars × Bool = (t, true) in p))
        (append_assoc vars ((key, value) ∷ []) more)

-- Variables with names that are not empty and differ from one another, fewer than 2^31 of them and each
-- of fewer bytes: `loadFromVar` of what `toVar` makes of them gives the same variables back.
pub load_from_var-to_var :
    (vars : Vars)
    → length vars < 0x80000000
    → All IsEntry vars
    → Apart [] vars
    → load_from_var (to_var vars) [] ≡ some (vars, true)
unfolding load_from_var to_var reset_offset
load_from_var-to_var vars small entries apart =
    ap (λ (v : ConfigVar). read_int (reset_offset v) >>= λ p. load_entries p.1 p.0 [])
      (ap (λ (v : ConfigVar). write_entries v vars) (write_int-at_end [] (length vars))
        ∙ write_entries_lem (code (length vars)) vars)
    ∙ ap (λ (o : Option (ConfigVar × ℕ)). o >>= λ p. load_entries p.1 p.0 [])
        (read_int_lem [] (entries_code vars) (length vars) small)
    ∙ load_entries_lem (code (length vars)) [] vars entries apart
