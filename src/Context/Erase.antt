-- ===== src/Context/Erase.antt =====
-- Erasing a node keeps the two tables together.
use encfs.Base.{
  ℕ, Bool, true, false, List, [], ◌∷◌, none, some, if◌then◌else◌, ◌==◌, ◌≡◌, ◌≢◌, inl, inr, refl,
  sym, ap, ◌∙◌, Bool-cases, ==_iff,
}
use encfs.Context.{
  FilePath, Context, same_path, find, erase, contains, erase_first, nodes_at, forget, store,
}
use encfs.Context.Table.{same_path-IsTest, eq-IsTest, find-erase, find-insert}
use encfs.Context.Files.{
  opens, handle_of, path_eq, path_self, pick, contains_left, contains_other, IsConsistent,
}

module _ {R : Type 0} (fuse_fh : ℕ → ℕ) where
  -- `eraseNode` of a node that is open at the path.
  module _ (ctx : Context R) (path : FilePath) (node : ℕ) (ok_ctx : IsConsistent fuse_fh ctx)
      (is_open : contains node (opens ctx path) ≡ true) where
    abbrev pub rest : List ℕ
    rest = erase_first node (opens ctx path)

    abbrev pub erased : Context R
    erased = store fuse_fh (forget fuse_fh ctx node rest) path rest

    files_forget :
        (b : Bool)
        → (if b then ctx else record ctx {
          fuse_fh_map = erase ◌==◌ (fuse_fh node) ctx.fuse_fh_map;
          released = node ∷ ctx.released;
        }).open_files
          ≡ ctx.open_files
    files_forget true = refl
    files_forget false = refl

    find-store :
        (nodes : List ℕ) (kept : Context R) (q : FilePath)
        → kept.open_files ≡ ctx.open_files
        → (find same_path q (store fuse_fh kept path nodes).open_files ≢ some [])
          × (nodes_at (find same_path q (store fuse_fh kept path nodes).open_files)
              ≡ (if same_path path q then nodes else opens ctx q))
    find-store [] kept q same =
        let e = find-erase same_path same_path-IsTest path q kept.open_files in
        (
          (λ f. elim (pick (same_path path q) (sym e ∙ f)) [
            | inl here ↦ absurd (cc (here.1))
            | inr other ↦ absurd (ok_ctx.nonempty q (sym (ap (find same_path q) same) ∙ other.1))
          ]),
          ap nodes_at e ∙ by_test (same_path path q),
        )
      where
        by_test :
            (b : Bool)
            → nodes_at (if b then none else find same_path q kept.open_files)
              ≡ (if b then [] else opens ctx q)
        by_test true = refl
        by_test false = ap (λ (t : List (FilePath × List ℕ)). nodes_at (find same_path q t)) same
    find-store (x ∷ nodes) kept q same =
        let e = find-insert same_path same_path-IsTest path q (x ∷ nodes) kept.open_files in
        (
          (λ f. elim (pick (same_path path q) (sym e ∙ f)) [
            | inl here ↦ absurd (cc (here.1))
            | inr other ↦ absurd (ok_ctx.nonempty q (sym (ap (find same_path q) same) ∙ other.1))
          ]),
          ap nodes_at e ∙ by_test (same_path path q),
        )
      where
        by_test :
            (b : Bool)
            → nodes_at (if b then some (x ∷ nodes) else find same_path q kept.open_files)
              ≡ (if b then x ∷ nodes else opens ctx q)
        by_test true = refl
        by_test false = ap (λ (t : List (FilePath × List ℕ)). nodes_at (find same_path q t)) same

    pub opens-erased :
        (q : FilePath) → opens erased q ≡ (if same_path path q then rest else opens ctx q)
    opens-erased q =
        (find-store rest (forget fuse_fh ctx node rest) q (files_forget (contains node rest))).1

    map_store :
        (nodes : List ℕ) (kept : Context R)
        → (store fuse_fh kept path nodes).fuse_fh_map ≡ kept.fuse_fh_map
    map_store [] kept = refl
    map_store (x ∷ nodes) kept = refl

    pub handle_erased :
        (n : ℕ)
        → handle_of erased n ≡ (
            if contains node rest
            then handle_of ctx n
            else if fuse_fh node == n
            then none
            else handle_of ctx n)
    handle_erased n =
        ap (find ◌==◌ n) (map_store rest (forget fuse_fh ctx node rest))
        ∙ by_test (contains node rest)
      where
        by_test :
            (b : Bool)
            → find ◌==◌ n
                (if b then ctx else record ctx {
                  fuse_fh_map = erase ◌==◌ (fuse_fh node) ctx.fuse_fh_map;
                  released = node ∷ ctx.released;
                }).fuse_fh_map
              ≡ (if b then handle_of ctx n else if fuse_fh node == n then none else handle_of ctx n)
        by_test true = refl
        by_test false = find-erase ◌==◌ eq-IsTest (fuse_fh node) n ctx.fuse_fh_map

    was_open :
        (q : FilePath) (m : ℕ)
        → contains m (opens erased q) ≡ true
        → (contains m (opens ctx q) ≡ true) × (q ≡ path → contains m rest ≡ true)
    was_open q m h = by_test (same_path path q) refl (sym (ap (contains m) (opens-erased q)) ∙ h)
      where
        by_test :
            (b : Bool)
            → same_path path q ≡ b
            → contains m (if b then rest else opens ctx q) ≡ true
            → (contains m (opens ctx q) ≡ true) × (q ≡ path → contains m rest ≡ true)
        by_test true e k = (
          ap (λ (x : FilePath). contains m (opens ctx x)) (sym (path_eq e))
              ∙ contains_left m node (opens ctx path) k,
          λ here. k,
        )
        by_test false e k = (k, λ here. absurd (cc (e, path_self (sym here))))

    still_open :
        (q : FilePath) (m : ℕ)
        → contains m (opens ctx q) ≡ true
        → (m ≡ node → contains node rest ≡ true)
        → contains m (opens erased q) ≡ true
    still_open q m h left = ap (contains m) (opens-erased q) ∙ by_test (same_path path q) refl
      where
        by_test :
            (b : Bool) → same_path path q ≡ b → contains m (if b then rest else opens ctx q) ≡ true
        by_test false e = h
        by_test true e =
            let here = ap (λ (x : FilePath). contains m (opens ctx x)) (path_eq e) ∙ h in
            elim (Bool-cases (m == node)) [
              | inl same ↦
                  let is_node = (==_iff m node).0 same in
                  ap (λ (x : ℕ). contains x rest) is_node ∙ left is_node
              | inr other ↦
                  contains_other m node (opens ctx path)
                    (λ is_node. cc (other, (==_iff m node).1 is_node)) here
            ]

    pub erased-IsConsistent : IsConsistent fuse_fh erased
    erased-IsConsistent = record {
      nonempty = λ q.
          (find-store rest (forget fuse_fh ctx node rest) q (files_forget (contains node rest))).0;
      handle = λ q m h.
          let (before, in_rest) = was_open q m h in
          handle_erased (fuse_fh m)
          ∙ kept q m before in_rest (contains node rest) refl (fuse_fh node == fuse_fh m) refl;
      open_at = λ n m h. elim (pick (contains node rest) (sym (handle_erased n) ∙ h)) [
        | inl more ↦
            let (own, q, h1) = ok_ctx.open_at n m more.1 in
            (own, q, still_open q m h1 (λ e. more.0))
        | inr last ↦ elim (pick (fuse_fh node == n) last.1) [
          | inl its ↦ absurd (cc (its.1))
          | inr other ↦
              let (own, q, h1) = ok_ctx.open_at n m other.1 in
              (
                own,
                q,
                still_open q m h1 (λ e.
                    absurd (cc (other.0, (==_iff (fuse_fh node) n).1 (ap fuse_fh (sym e) ∙ own)))),
              )
        ]
      ];
      one_path = λ p q m h k. ok_ctx.one_path p q m (was_open p m h).0 (was_open q m k).0;
    }
      where
        kept :
            (q : FilePath) (m : ℕ)
            → contains m (opens ctx q) ≡ true
            → (q ≡ path → contains m rest ≡ true)
            → (more : Bool) → contains node rest ≡ more
            → (same : Bool) → (fuse_fh node == fuse_fh m) ≡ same
            → (if more
                then handle_of ctx (fuse_fh m)
                else if same
                then none
                else handle_of ctx (fuse_fh m))
              ≡ some m
        kept q m h in_rest true e same f = ok_ctx.handle q m h
        kept q m h in_rest false e false f = ok_ctx.handle q m h
        kept q m h in_rest false e true f =
            let both : some node ≡ some m =
              sym (ok_ctx.handle path node is_open)
              ∙ ap (handle_of ctx) ((==_iff (fuse_fh node) (fuse_fh m)).0 f)
              ∙ ok_ctx.handle q m h in
            let is_node : node ≡ m = cc both in
            let at_path : q ≡ path =
              ok_ctx.one_path q path m h
                (ap (λ (x : ℕ). contains x (opens ctx path)) (sym is_node) ∙ is_open) in
            absurd (cc (e, ap (λ (x : ℕ). contains x rest) is_node ∙ in_rest at_path))
