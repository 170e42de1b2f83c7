-- ===== src/Context/Life.antt =====
-- Renaming keeps the two tables together, and what holds after any sequence of operations.
use encfs.Base.{
  ℕ, Bool, true, false, List, Option, none, some, if◌then◌else◌, ◌==◌, ◌≡◌, ◌≢◌, ◌⊎◌, inl, inr,
  refl, sym, ap, ◌∙◌, Bool-cases,
}
use mathlib.Core.Path.{subst}
use encfs.Cipher.Ssl.{r_assert, ◌>>=◌, ◌>>◌}
use encfs.Context.{
  FilePath, Context, same_path, find, erase, contains, erase_first, nodes_at, renamed, rename_node,
  put_node, forget, store, erase_node,
}
use encfs.Context.Table.{same_path-IsTest, find-erase, find-insert}
use encfs.Context.Files.{
  opens, path_eq, path_self, pick, if_true, IsConsistent, IsFree, put-IsConsistent,
}
use encfs.Context.Erase.{erased-IsConsistent}
use encfs.Context.{
  new_context, next_fuse_fh, set_root, usage_and_unmount, unmount_mounted, counted_idle, is_empty,
}
use encfs.Base.{leb, not}

module _ {R : Type 0} (fuse_fh : ℕ → ℕ) where
  -- A file takes the place of a name that no open file has.
  module _ (ctx : Context R) (from to : FilePath) (ok_ctx : IsConsistent fuse_fh ctx)
      (unused : (to ≡ from) ⊎ (find same_path to ctx.open_files ≡ none)) (nodes : List ℕ)
      (at_from : find same_path from ctx.open_files ≡ some nodes) where
    abbrev moved : Context R
    moved = renamed fuse_fh ctx from to (some nodes)

    find_moved :
        (q : FilePath)
        → find same_path q moved.open_files ≡ (
            if same_path to q
            then some nodes
            else if same_path from q
            then none
            else find same_path q ctx.open_files)
    find_moved q =
        find-insert same_path same_path-IsTest to q nodes (erase same_path from ctx.open_files)
        ∙ ap (λ (t : Option (List ℕ)). if same_path to q then some nodes else t)
            (find-erase same_path same_path-IsTest from q ctx.open_files)

    -- Where a node is open afterwards, and before.
    from_where :
        (q : FilePath) (m : ℕ)
        → contains m (opens moved q) ≡ true
        → ((q ≡ to) × (contains m (opens ctx from) ≡ true))
          ⊎ ((q ≢ from) × (contains m (opens ctx q) ≡ true))
    from_where q m h =
        by_tests (same_path to q) refl (same_path from q) refl
          (sym (ap (λ (t : Option (List ℕ)). contains m (nodes_at t)) (find_moved q)) ∙ h)
      where
        by_tests :
            (a : Bool)
            → same_path to q ≡ a
            → (b : Bool) → same_path from q ≡ b
            → contains m (
                nodes_at
                  (if a then some nodes else if b then none else find same_path q ctx.open_files))
              ≡ true
            → ((q ≡ to) × (contains m (opens ctx from) ≡ true))
              ⊎ ((q ≢ from) × (contains m (opens ctx q) ≡ true))
        by_tests true e b f k =
            inl (sym (path_eq e), ap (λ (t : Option (List ℕ)). contains m (nodes_at t)) at_from ∙ k)
        by_tests false e true f k = absurd (cc k)
        by_tests false e false f k = inr ((λ same. absurd (cc (f, path_self (sym same)))), k)

    at_to : (m : ℕ) → contains m (opens ctx from) ≡ true → contains m (opens moved to) ≡ true
    at_to m h =
        ap (λ (t : Option (List ℕ)). contains m (nodes_at t))
          (find_moved to
            ∙ if_true (same_path to to) (some nodes)
                (if same_path from to then none else find same_path to ctx.open_files)
                (same_path-IsTest.complete to))
        ∙ sym (ap (λ (t : Option (List ℕ)). contains m (nodes_at t)) at_from)
        ∙ h

    elsewhere :
        (q : FilePath) (m : ℕ)
        → same_path from q ≡ false
        → contains m (opens ctx q) ≡ true
        → contains m (opens moved q) ≡ true
    elsewhere q m f h =
        ap (λ (t : Option (List ℕ)). contains m (nodes_at t)) (find_moved q)
        ∙ by_test (same_path to q) refl (same_path from q) f
      where
        by_test :
            (a : Bool)
            → same_path to q ≡ a
            → (b : Bool) → b ≡ false
            → contains m (
                nodes_at
                  (if a then some nodes else if b then none else find same_path q ctx.open_files))
              ≡ true
        by_test false e false g = h
        by_test a e true g = absurd (cc g)
        by_test true e false g = elim unused [
          | inl same ↦ absurd (cc (f, path_self (sym same ∙ path_eq e)))
          | inr no_file ↦ absurd (
              cc (
                sym (
                  ap (λ (t : Option (List ℕ)). contains m (nodes_at t))
                    (ap (λ (x : FilePath). find same_path x ctx.open_files) (sym (path_eq e))
                      ∙ no_file))
                ∙ h))
        ]

    moved-IsConsistent : IsConsistent fuse_fh moved
    moved-IsConsistent = record {
      nonempty = λ q e. elim (pick (same_path to q) (sym (find_moved q) ∙ e)) [
        | inl here ↦ absurd (ok_ctx.nonempty from (at_from ∙ here.1))
        | inr other ↦ elim (pick (same_path from q) other.1) [
          | inl gone ↦ absurd (cc (gone.1))
          | inr kept ↦ absurd (ok_ctx.nonempty q kept.1)
        ]
      ];
      handle = λ q m h. elim (from_where q m h) [
        | inl new ↦ ok_ctx.handle from m new.1
        | inr old ↦ ok_ctx.handle q m old.1
      ];
      open_at = λ n m h.
          let (own, q, h1) = ok_ctx.open_at n m h in
          elim (Bool-cases (same_path from q)) [
            | inl here ↦ (
              own,
              to,
              at_to m (ap (λ (x : FilePath). contains m (opens ctx x)) (path_eq here) ∙ h1),
            )
            | inr other ↦ (own, q, elsewhere q m other h1)
          ];
      one_path = λ p q m h k. elim (from_where p m h) [
        | inl new ↦ elim (from_where q m k) [
          | inl new' ↦ new.0 ∙ sym new'.0
          | inr old' ↦ absurd (old'.0 (ok_ctx.one_path q from m old'.1 new.1))
        ]
        | inr old ↦ elim (from_where q m k) [
          | inl new' ↦ absurd (old.0 (ok_ctx.one_path p from m old.1 new'.1))
          | inr old' ↦ ok_ctx.one_path p q m old.1 old'.1
        ]
      ];
    }

  rename_node-IsConsistent :
      (ctx : Context R) (from to : FilePath)
      → IsConsistent fuse_fh ctx
      → (to ≡ from) ⊎ (find same_path to ctx.open_files ≡ none)
      → IsConsistent fuse_fh (rename_node fuse_fh ctx from to)
  unfolding rename_node
  rename_node-IsConsistent ctx from to h unused = go (find same_path from ctx.open_files) refl
    where
      go :
          (o : Option (List ℕ))
          → find same_path from ctx.open_files ≡ o
          → IsConsistent fuse_fh (renamed fuse_fh ctx from to o)
      go none e = h
      go (some nodes) e = moved-IsConsistent ctx from to h unused nodes e

  -- `eraseNode` throws exactly if the node is not open at the path; else it takes one reference away.
  pub erase_node-cases :
      (ctx : Context R) (path : FilePath) (node : ℕ)
      → ((contains node (opens ctx path) ≡ true)
          × (erase_node fuse_fh ctx path node
              ≡ some (
                  store fuse_fh
                    (forget fuse_fh ctx node (erase_first node (opens ctx path)))
                    path
                    (erase_first node (opens ctx path)))))
        ⊎ ((contains node (opens ctx path) ≡ false) × (erase_node fuse_fh ctx path node ≡ none))
  unfolding erase_node
  erase_node-cases ctx path node = go (find same_path path ctx.open_files)
    where
      step : List ℕ → Option (Context R)
      step nodes = do
        r_assert (contains node nodes)
        some (
            store fuse_fh (forget fuse_fh ctx node (erase_first node nodes)) path
              (erase_first node nodes))

      go :
          (o : Option (List ℕ))
          → ((contains node (nodes_at o) ≡ true)
              × ((o >>= step)
                  ≡ some (
                      store fuse_fh
                        (forget fuse_fh ctx node (erase_first node (nodes_at o)))
                        path
                        (erase_first node (nodes_at o)))))
            ⊎ ((contains node (nodes_at o) ≡ false) × ((o >>= step) ≡ none))
      go none = inr (refl, refl)
      go (some nodes) = elim (Bool-cases (contains node nodes)) [
        | inl there ↦ inl (
          there,
          ap
              (λ (b : Bool).
                r_assert b
                >> some (
                    store fuse_fh (forget fuse_fh ctx node (erase_first node nodes)) path
                      (erase_first node nodes)))
              there,
        )
        | inr missing ↦ inr (
          missing,
          ap
              (λ (b : Bool).
                r_assert b
                >> some (
                    store fuse_fh (forget fuse_fh ctx node (erase_first node nodes)) path
                      (erase_first node nodes)))
              missing,
        )
      ]

  -- One operation. A node is put where it is free; the target of `renameNode` is not the path of another
  -- open file, as libfuse, which gives an open target another name first, sees to; `eraseNode` counts
  -- where it does not throw.
  pub data Step : Context R → Context R → Type 0 where
    put :
        (ctx : Context R) (path : FilePath) (node : ℕ)
        → IsFree fuse_fh ctx path node
        → Step ctx (put_node fuse_fh ctx path node)
    erased_at :
        (ctx ctx' : Context R) (path : FilePath) (node : ℕ)
        → erase_node fuse_fh ctx path node ≡ some ctx'
        → Step ctx ctx'
    renamed_to :
        (ctx : Context R) (from to : FilePath)
        → (to ≡ from) ⊎ (find same_path to ctx.open_files ≡ none)
        → Step ctx (rename_node fuse_fh ctx from to)
    handed : (ctx : Context R) → Step ctx (next_fuse_fh fuse_fh ctx).0
    rooted : (ctx : Context R) (root : Option R) → Step ctx (set_root ctx root)
    monitored :
        (ctx : Context R) (on_demand : Bool) (timeout_cycles : ℕ)
        → Step ctx (usage_and_unmount on_demand ctx timeout_cycles).0

  pub data Reach (ctx : Context R) : Context R → Type 0 where
    here : Reach ctx ctx
    next : {c1 c2 : Context R} → Reach ctx c1 → Step c1 c2 → Reach ctx c2

  same_tables :
      (ctx ctx' : Context R)
      → ctx'.open_files ≡ ctx.open_files
      → ctx'.fuse_fh_map ≡ ctx.fuse_fh_map
      → IsConsistent fuse_fh ctx
      → IsConsistent fuse_fh ctx'
  same_tables ctx ctx' files handles h =
      let at = λ (q : FilePath) (m : ℕ).
        ap (λ (t : List (FilePath × List ℕ)). contains m (nodes_at (find same_path q t))) files in
      record {
        nonempty = λ q e. h.nonempty q (sym (ap (find same_path q) files) ∙ e);
        handle = λ q m k. ap (find ◌==◌ (fuse_fh m)) handles ∙ h.handle q m (sym (at q m) ∙ k);
        open_at = λ n m k.
            let (own, q, k1) = h.open_at n m (sym (ap (find ◌==◌ n) handles) ∙ k) in
            (own, q, at q m ∙ k1);
        one_path = λ p q m k l. h.one_path p q m (sym (at p m) ∙ k) (sym (at q m) ∙ l);
      }

  monitor_tables :
      (ctx : Context R) (on_demand : Bool) (timeout_cycles : ℕ)
      → ((usage_and_unmount on_demand ctx timeout_cycles).0.open_files ≡ ctx.open_files)
        × ((usage_and_unmount on_demand ctx timeout_cycles).0.fuse_fh_map ≡ ctx.fuse_fh_map)
  unfolding usage_and_unmount
  monitor_tables ctx on_demand timeout_cycles = go ctx.root
    where
      idle_ctx : Context R
      idle_ctx = counted_idle ctx

      by_tests :
          (a b d : Bool)
          → let end : Context R × Bool =
              if a
              then (idle_ctx, false)
              else if b
              then (idle_ctx, false)
              else (if d then record idle_ctx { is_unmounting = true } else idle_ctx, true) in
            (end.0.open_files ≡ ctx.open_files) × (end.0.fuse_fh_map ≡ ctx.fuse_fh_map)
      by_tests true b d = (refl, refl)
      by_tests false true d = (refl, refl)
      by_tests false false true = (refl, refl)
      by_tests false false false = (refl, refl)

      go :
          (r : Option R)
          → ((unmount_mounted on_demand ctx timeout_cycles r).0.open_files ≡ ctx.open_files)
            × ((unmount_mounted on_demand ctx timeout_cycles r).0.fuse_fh_map ≡ ctx.fuse_fh_map)
      go none = (refl, refl)
      go (some r) =
          by_tests (leb idle_ctx.idle timeout_cycles) (not (is_empty ctx.open_files))
            (not on_demand)

  pub Step-IsConsistent :
      {ctx ctx' : Context R} → Step ctx ctx' → IsConsistent fuse_fh ctx → IsConsistent fuse_fh ctx'
  unfolding next_fuse_fh set_root
  Step-IsConsistent (put ctx path node free) h = put-IsConsistent fuse_fh ctx path node h free
  Step-IsConsistent (erased_at ctx ctx' path node e) h = elim (erase_node-cases ctx path node) [
    | inr missing ↦ absurd (cc (e, missing.1))
    | inl there ↦
        let same : store fuse_fh (forget fuse_fh ctx node (erase_first node (opens ctx path))) path
              (erase_first node (opens ctx path))
            ≡ ctx' =
          cc (e, there.1) in
        subst (IsConsistent fuse_fh) same (erased-IsConsistent fuse_fh ctx path node h there.0)
  ]
  Step-IsConsistent (renamed_to ctx from to unused) h =
      rename_node-IsConsistent ctx from to h unused
  Step-IsConsistent (handed ctx) h = same_tables ctx (next_fuse_fh fuse_fh ctx).0 refl refl h
  Step-IsConsistent (rooted ctx root) h = same_tables ctx (set_root ctx root) refl refl h
  Step-IsConsistent (monitored ctx on_demand timeout_cycles) h =
      let (files, handles) = monitor_tables ctx on_demand timeout_cycles in
      same_tables ctx (usage_and_unmount on_demand ctx timeout_cycles).0 files handles h

  -- In every state that a new context reaches by putting free nodes, erasing nodes, renaming to
  -- paths at which no other file is open, and the other operations: no list of open nodes is empty, the handle
  -- of every open node leads to it, a handle leads only to a node of that handle that is open, and no
  -- node is open at two paths. So a handle is forgotten with the last reference, and not before.
  pub new_context-IsConsistent :
      (ctx : Context R) → Reach new_context ctx → IsConsistent fuse_fh ctx
  unfolding new_context find
  new_context-IsConsistent ctx here = record {
    nonempty = λ path e. absurd (cc e);
    handle = λ path node h. absurd (cc h);
    open_at = λ n node h. absurd (cc h);
    one_path = λ p q node h k. absurd (cc h);
  }
  new_context-IsConsistent ctx (next {c1} {c2} reached step) =
      Step-IsConsistent step (new_context-IsConsistent c1 reached)
