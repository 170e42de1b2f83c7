-- ===== src/Context/References.antt =====
-- What `eraseNode` does to the references of a node, its handle and its canary.
use encfs.Base.{
  ℕ, ◌+◌, ◌<◌, Bool, true, false, ◌&&◌, not, List, [], ◌∷◌, none, some, if◌then◌else◌, ◌==◌, ◌≡◌,
  ◌⊎◌, inl, inr, refl, sym, ap, ◌∙◌, arith, Bool-cases,
}
use encfs.Context.{
  FilePath, Context, same_path, erase, contains, erase_first, forget, store, erase_node,
  lookup_fuse_fh,
}
use encfs.Context.Files.{opens, handle_of, path_eq, path_self, if_true, IsConsistent}
use encfs.Context.Erase.{erased, opens-erased, handle_erased}
use encfs.Context.Life.{erase_node-cases}

-- How often a node stands in a list.
unfoldable pub references : ℕ → List ℕ → ℕ
references node [] = 0
references node (x ∷ nodes) = (if x == node then 1 else 0) + references node nodes

references-contains :
    (node : ℕ) (nodes : List ℕ) → contains node nodes ≡ true → 0 < references node nodes
unfolding references
references-contains node [] h = absurd (cc h)
references-contains node (x ∷ nodes) h = ground (arith, references-contains node nodes)

references-missing :
    (node : ℕ) (nodes : List ℕ) → contains node nodes ≡ false → references node nodes ≡ 0
unfolding references
references-missing node [] h = refl
references-missing node (x ∷ nodes) h = ground (arith, references-missing node nodes)

last_reference :
    (node : ℕ) (nodes : List ℕ) → (references node nodes == 0) ≡ not (contains node nodes)
last_reference node nodes = elim (Bool-cases (contains node nodes)) [
  | inl there ↦
      let some_left = references-contains node nodes there in
      let e : (references node nodes == 0) ≡ false = ground (arith, some_left) in
      e ∙ ap not (sym there)
  | inr missing ↦
      ap (λ (n : ℕ). n == 0) (references-missing node nodes missing) ∙ ap not (sym missing)
]

references-erase_first :
    (m node : ℕ) (nodes : List ℕ)
    → contains node nodes ≡ true
    → references m (erase_first node nodes) + (if m == node then 1 else 0) ≡ references m nodes
unfolding references
references-erase_first m node [] h = absurd (cc h)
references-erase_first m node (x ∷ nodes) h = ground (arith, references-erase_first m node nodes)

module _ {R : Type 0} (fuse_fh : ℕ → ℕ) where
  -- One reference less of the node at the path, and none else. With the last one there, and only then,
  -- the handle of the node leads nowhere any more and its canary is overwritten.
  pub record IsErased (ctx : Context R) (path : FilePath) (node : ℕ) (ctx' : Context R)
      : Type 0 where
    pub counts :
        (q : FilePath) (m : ℕ)
        → references m (opens ctx' q) + (if same_path path q && (m == node) then 1 else 0)
          ≡ references m (opens ctx q)
    pub handles :
        (n : ℕ)
        → lookup_fuse_fh fuse_fh ctx' n ≡ (
            if (references node (opens ctx' path) == 0) && (fuse_fh node == n)
            then none
            else lookup_fuse_fh fuse_fh ctx n)
    pub canaries :
        ctx'.released
        ≡ (if references node (opens ctx' path) == 0 then node ∷ ctx.released else ctx.released)

  -- `eraseNode` throws exactly if the node has no reference at the path; else, in a context whose tables
  -- agree, it takes one reference away and forgets the handle with the last one.
  pub erase_node-IsErased :
      (ctx : Context R) (path : FilePath) (node : ℕ)
      → IsConsistent fuse_fh ctx
      → ((0 < references node (opens ctx path))
          × (ctx' : Context R) × (erase_node fuse_fh ctx path node ≡ some ctx')
          × IsErased ctx path node ctx')
        ⊎ ((references node (opens ctx path) ≡ 0) × (erase_node fuse_fh ctx path node ≡ none))
  unfolding lookup_fuse_fh
  erase_node-IsErased ctx path node h = elim (erase_node-cases fuse_fh ctx path node) [
    | inr missing ↦ inr (references-missing node (opens ctx path) missing.0, missing.1)
    | inl there ↦ inl (
      references-contains node (opens ctx path) there.0,
      erased fuse_fh ctx path node h there.0,
      there.1,
      record {
        counts = λ q m.
            ap (λ (t : List ℕ). references m t + (if same_path path q && (m == node) then 1 else 0))
              (opens-erased fuse_fh ctx path node h there.0 q)
            ∙ by_path there.0 q m (same_path path q) refl;
        handles = λ n.
            handle_erased fuse_fh ctx path node h there.0 n
            ∙ by_handle n (contains node left)
            ∙ ap (λ (b : Bool). if b && (fuse_fh node == n) then none else handle_of ctx n)
                (sym (is_last there.0));
        canaries =
            released_store left (forget fuse_fh ctx node left)
            ∙ by_last (contains node left)
            ∙ ap (λ (b : Bool). if b then node ∷ ctx.released else ctx.released)
                (sym (is_last there.0));
      },
    )
  ]
    where
      left : List ℕ
      left = erase_first node (opens ctx path)

      is_last :
          (is_open : contains node (opens ctx path) ≡ true)
          → (references node (opens (erased fuse_fh ctx path node h is_open) path) == 0)
            ≡ not (contains node left)
      is_last is_open =
          ap (λ (t : List ℕ). references node t == 0)
            (opens-erased fuse_fh ctx path node h is_open path
              ∙ if_true (same_path path path) left (opens ctx path) (path_self {p = path} refl))
          ∙ last_reference node left

      by_path :
          contains node (opens ctx path) ≡ true
          → (q : FilePath) (m : ℕ) (b : Bool) → same_path path q ≡ b
          → references m (if b then erase_first node (opens ctx path) else opens ctx q)
              + (if b && (m == node) then 1 else 0)
            ≡ references m (opens ctx q)
      by_path is_open q m true e =
          references-erase_first m node (opens ctx path) is_open
          ∙ ap (λ (p : FilePath). references m (opens ctx p)) (path_eq e)
      by_path is_open q m false e = omega arith

      by_handle :
          (n : ℕ) (b : Bool)
          → (if b then handle_of ctx n else if fuse_fh node == n then none else handle_of ctx n)
            ≡ (if not b && (fuse_fh node == n) then none else handle_of ctx n)
      by_handle n true = refl
      by_handle n false = refl

      released_store :
          (nodes : List ℕ) (kept : Context R)
          → (store fuse_fh kept path nodes).released ≡ kept.released
      released_store [] kept = refl
      released_store (x ∷ nodes) kept = refl

      by_last :
          (b : Bool)
          → (if b then ctx else record ctx {
            fuse_fh_map = erase ◌==◌ (fuse_fh node) ctx.fuse_fh_map;
            released = node ∷ ctx.released;
          }).released
            ≡ (if not b then node ∷ ctx.released else ctx.released)
      by_last true = refl
      by_last false = refl
