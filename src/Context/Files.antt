-- ===== src/Context/Files.antt =====
-- The two tables agree: a handle leads to a node exactly as long as the node is open somewhere.
use encfs.Base.{
  ℕ, Bool, true, false, List, [], ◌∷◌, Option, some, if◌then◌else◌, ◌==◌, ◌≡◌, ◌≢◌, ◌⊎◌, inl, inr,
  refl, sym, ap, ◌∙◌, arith, ==_iff,
}
use encfs.Context.{FilePath, Context, same_path, find, contains, erase_first, nodes_at, put_node}
use encfs.Context.Table.{same_path-IsTest, eq-IsTest, find-insert}

-- The nodes that are open at a path, once for each time.
abbrev pub opens : {R : Type 0} → Context R → FilePath → List ℕ
opens ctx path = nodes_at (find same_path path ctx.open_files)

abbrev pub handle_of : {R : Type 0} → Context R → ℕ → Option ℕ
handle_of ctx n = find ◌==◌ n ctx.fuse_fh_map

pub path_eq : {p q : FilePath} → same_path p q ≡ true → p ≡ q
path_eq {p} {q} e = same_path-IsTest.sound p q e

pub path_self : {p q : FilePath} → p ≡ q → same_path p q ≡ true
path_self {p} {q} e = ap (same_path p) (sym e) ∙ same_path-IsTest.complete p

-- A split on a test that keeps the equation.
pub pick :
    {A : Type 0} (b : Bool) {x y z : A}
    → (if b then x else y) ≡ z
    → ((b ≡ true) × (x ≡ z)) ⊎ ((b ≡ false) × (y ≡ z))
pick true e = inl (refl, e)
pick false e = inr (refl, e)

pub if_true : {A : Type 0} (b : Bool) (x y : A) → b ≡ true → (if b then x else y) ≡ x
if_true true x y e = refl
if_true false x y e = absurd (cc e)

if_false : {A : Type 0} (b : Bool) (x y : A) → b ≡ false → (if b then x else y) ≡ y
if_false true x y e = absurd (cc e)
if_false false x y e = refl

-- What is left after an erasure was there, and all else stays.
pub contains_left :
    (m node : ℕ) (nodes : List ℕ)
    → contains m (erase_first node nodes) ≡ true
    → contains m nodes ≡ true
contains_left m node [] h = h
contains_left m node (x ∷ nodes) h = ground (arith, contains_left m node nodes)

pub contains_other :
    (m node : ℕ) (nodes : List ℕ)
    → m ≢ node
    → contains m nodes ≡ true
    → contains m (erase_first node nodes) ≡ true
contains_other m node [] ne h = absurd (cc h)
contains_other m node (x ∷ nodes) ne h = ground (arith, contains_other m node nodes ne)

module _ {R : Type 0} (fuse_fh : ℕ → ℕ) where
  pub record IsConsistent (ctx : Context R) : Type 0 where
    -- No list is empty.
    pub nonempty : (path : FilePath) → find same_path path ctx.open_files ≢ some []
    -- The handle of an open node leads to it.
    pub handle :
        (path : FilePath) (node : ℕ)
        → contains node (opens ctx path) ≡ true
        → handle_of ctx (fuse_fh node) ≡ some node
    -- A handle leads to a node that is open, and is its own.
    pub open_at :
        (n node : ℕ)
        → handle_of ctx n ≡ some node
        → (fuse_fh node ≡ n) × (path : FilePath) × (contains node (opens ctx path) ≡ true)
    -- A node is open at one path only.
    pub one_path :
        (p q : FilePath) (node : ℕ)
        → contains node (opens ctx p) ≡ true
        → contains node (opens ctx q) ≡ true
        → p ≡ q

  -- No other open node has the handle, and the node is open at no other path.
  abbrev pub IsFree : Context R → FilePath → ℕ → Type 0
  IsFree ctx path node =
      (q : FilePath) (m : ℕ)
      → contains m (opens ctx q) ≡ true
      → (fuse_fh m ≡ fuse_fh node → m ≡ node) × (m ≡ node → q ≡ path)

  module _ (ctx : Context R) (path : FilePath) (node : ℕ) (ok_ctx : IsConsistent ctx) where
    abbrev put : Context R
    put = put_node fuse_fh ctx path node

    find_put :
        (q : FilePath)
        → find same_path q put.open_files ≡ (
            if same_path path q
            then some (node ∷ opens ctx path)
            else find same_path q ctx.open_files)
    unfolding put_node
    find_put q =
        find-insert same_path same_path-IsTest path q (node ∷ opens ctx path) ctx.open_files

    opens-put :
        (q : FilePath)
        → opens put q ≡ (if same_path path q then node ∷ opens ctx path else opens ctx q)
    opens-put q = ap nodes_at (find_put q) ∙ by_test (same_path path q)
      where
        by_test :
            (b : Bool)
            → nodes_at (if b then some (node ∷ opens ctx path) else find same_path q ctx.open_files)
              ≡ (if b then node ∷ opens ctx path else opens ctx q)
        by_test true = refl
        by_test false = refl

    handle_put :
        (n : ℕ) → handle_of put n ≡ (if fuse_fh node == n then some node else handle_of ctx n)
    unfolding put_node
    handle_put n = find-insert ◌==◌ eq-IsTest (fuse_fh node) n node ctx.fuse_fh_map

    -- A node that is open afterwards was open there, or is the new one.
    who :
        (q : FilePath) (m : ℕ)
        → contains m (opens put q) ≡ true
        → (contains m (opens ctx q) ≡ true) ⊎ ((m ≡ node) × (q ≡ path))
    who q m h = by_test (same_path path q) refl (sym (ap (contains m) (opens-put q)) ∙ h)
      where
        by_test :
            (b : Bool)
            → same_path path q ≡ b
            → contains m (if b then node ∷ opens ctx path else opens ctx q) ≡ true
            → (contains m (opens ctx q) ≡ true) ⊎ ((m ≡ node) × (q ≡ path))
        by_test false e k = inl k
        by_test true e k = elim (pick (node == m) k) [
          | inl new ↦ inr (sym ((==_iff node m).0 new.0), sym (path_eq e))
          | inr old ↦
              inl (ap (λ (x : FilePath). contains m (opens ctx x)) (sym (path_eq e)) ∙ old.1)
        ]

    -- What was open stays open, and the node is open at the path.
    stays :
        (q : FilePath) (m : ℕ) → contains m (opens ctx q) ≡ true → contains m (opens put q) ≡ true
    stays q m h = ap (contains m) (opens-put q) ∙ by_test (same_path path q) refl
      where
        later : (b : Bool) → (if b then true else true) ≡ true
        later true = refl
        later false = refl

        by_test :
            (b : Bool)
            → same_path path q ≡ b
            → contains m (if b then node ∷ opens ctx path else opens ctx q) ≡ true
        by_test false e = h
        by_test true e =
            ap (λ (t : Bool). if node == m then true else t)
              (ap (λ (x : FilePath). contains m (opens ctx x)) (path_eq e) ∙ h)
            ∙ later (node == m)

    there : contains node (opens put path) ≡ true
    there =
        ap (contains node) (
          opens-put path
          ∙ if_true (same_path path path) (node ∷ opens ctx path) (opens ctx path)
              (same_path-IsTest.complete path))
        ∙ if_true (node == node) true (contains node (opens ctx path)) ((==_iff node node).1 refl)

    pub put-IsConsistent : IsFree ctx path node → IsConsistent put
    put-IsConsistent free = record {
      nonempty = λ q e. elim (pick (same_path path q) (sym (find_put q) ∙ e)) [
        | inl here ↦ absurd (cc (here.1))
        | inr other ↦ absurd (ok_ctx.nonempty q other.1)
      ];
      handle = λ q m h. elim (who q m h) [
        | inr new ↦
            ap (λ (x : ℕ). handle_of put (fuse_fh x)) new.0
            ∙ handle_put (fuse_fh node)
            ∙ if_true (fuse_fh node == fuse_fh node) (some node) (handle_of ctx (fuse_fh node))
                ((==_iff (fuse_fh node) (fuse_fh node)).1 refl)
            ∙ ap some (sym new.0)
        | inl old ↦ handle_put (fuse_fh m) ∙ old_handle q m old (fuse_fh node == fuse_fh m) refl
      ];
      open_at = λ n m h. elim (pick (fuse_fh node == n) (sym (handle_put n) ∙ h)) [
        | inl new ↦
            let same : node ≡ m = cc (new.1) in
            (
              ap fuse_fh (sym same) ∙ (==_iff (fuse_fh node) n).0 new.0,
              path,
              ap (λ (x : ℕ). contains x (opens put path)) (sym same) ∙ there,
            )
        | inr old ↦ let (own, q, h1) = ok_ctx.open_at n m old.1 in (own, q, stays q m h1)
      ];
      one_path = λ p q m h k. elim (who p m h) [
        | inl old ↦ elim (who q m k) [
          | inl old' ↦ ok_ctx.one_path p q m old old'
          | inr new' ↦ (free p m old).1 new'.0 ∙ sym new'.1
        ]
        | inr new ↦ elim (who q m k) [
          | inl old' ↦ new.1 ∙ sym ((free q m old').1 new.0)
          | inr new' ↦ new.1 ∙ sym new'.1
        ]
      ];
    }
      where
        old_handle :
            (q : FilePath) (m : ℕ)
            → contains m (opens ctx q) ≡ true
            → (b : Bool) → (fuse_fh node == fuse_fh m) ≡ b
            → (if b then some node else handle_of ctx (fuse_fh m)) ≡ some m
        old_handle q m h true e =
            ap some (sym ((free q m h).0 (sym ((==_iff (fuse_fh node) (fuse_fh m)).0 e))))
        old_handle q m h false e = ok_ctx.handle q m h
