-- ===== src/Context/Tests.antt =====
-- A node that is opened twice, renamed and closed once, and an idle file system: the witnesses.
use encfs.Base.{
  ℕ, ◌+◌, ◌≤◌, ◌<◌, true, false, [], ◌∷◌, none, some, ◌≡◌, ◌⊎◌, inr, refl, sym, arith, Bool,
  if◌then◌else◌,
}
use encfs.Context.{
  Context, FilePath, new_context, put_node, erase_node, rename_node, find, erase, insert, contains,
  nodes_at, same_path, usage_and_unmount, idle_monitor,
}
use encfs.Context.Files.{path_eq, opens, IsConsistent, IsFree}
use encfs.Context.Life.{put, erased_at, renamed_to, Reach, here, next, new_context-IsConsistent}
use encfs.Context.Idle.{IsQuiet, IsUnmounted, idle_unmounts, unmount_safe}
use encfs.Context.References.{references, IsErased, erase_node-IsErased}

abbrev handle : ℕ → ℕ
handle node = node + 10

abbrev path_a : FilePath
path_a = b'a' ∷ []

abbrev path_b : FilePath
path_b = b'b' ∷ []

abbrev Ctx : Type 0
Ctx = Context ℕ

abbrev start : Ctx
unfolding new_context
start = new_context

abbrev once : Ctx
unfolding start put_node insert erase find
once = put_node handle start path_a 5

abbrev moved : Ctx
unfolding once rename_node insert erase find
moved = rename_node handle once path_a path_b

-- Open once, under another name.
abbrev final : Ctx
final = record {
  open_files = (path_b, 5 ∷ []) ∷ [];
  fuse_fh_map = (15, 5) ∷ [];
  current_fuse_fh = 1;
  usage_count = 0;
  idle = 0;
  is_unmounting = false;
  root = none;
  released = [];
}

IsFree-first : IsFree handle start path_a 5
unfolding start new_context find
IsFree-first q m h = absurd (cc h)

IsFree-again : IsFree handle moved path_b 5
unfolding moved once start new_context rename_node put_node insert erase find
IsFree-again q m h = by_path (same_path path_b q) refl h
  where
    by_path :
        (b : Bool)
        → same_path path_b q ≡ b
        → contains m (nodes_at (if b then some (5 ∷ []) else none)) ≡ true
        → (handle m ≡ 15 → m ≡ 5) × (m ≡ 5 → q ≡ path_b)
    by_path false e k = absurd (cc k)
    by_path true e k = ((λ f. omega (arith, f)), λ f. sym (path_eq e))

a_life : Reach handle new_context final
unfolding moved once start new_context rename_node put_node erase_node insert erase find
a_life =
    next
      (next
        (next (next here (put start path_a 5 IsFree-first))
          (renamed_to once path_a path_b (inr refl)))
        (put moved path_b 5 IsFree-again))
      (erased_at (put_node handle moved path_b 5) final path_b 5 refl)

new_context-IsConsistent_example : IsConsistent handle final
new_context-IsConsistent_example = new_context-IsConsistent handle final a_life

final-IsConsistent : IsConsistent handle final
final-IsConsistent = new_context-IsConsistent handle final a_life

-- The last reference.
erase_node-IsErased_example :
    ((0 < references 5 (opens final path_b))
      × (ctx' : Ctx) × (erase_node handle final path_b 5 ≡ some ctx')
      × IsErased handle final path_b 5 ctx')
    ⊎ ((references 5 (opens final path_b) ≡ 0) × (erase_node handle final path_b 5 ≡ none))
erase_node-IsErased_example = erase_node-IsErased handle final path_b 5 final-IsConsistent

abbrev idle_context : Ctx
idle_context = record {
  open_files = [];
  fuse_fh_map = [];
  current_fuse_fh = 4;
  usage_count = 0;
  idle = 1;
  is_unmounting = false;
  root = some 9;
  released = [];
}

-- The third round unmounts, and the loop is over.
idle_unmounts_example :
    ((1 + 5 ≤ 3)
      × ((idle_monitor false 3 5 idle_context).1 ≡ false)
      × IsQuiet false 3 (1 + 5) (idle_monitor false 3 5 idle_context).0)
    ⊎ ((3 < 1 + 5) × IsUnmounted false 3 (idle_monitor false 3 5 idle_context))
idle_unmounts_example =
    idle_unmounts false 3 5 1 idle_context
      (record { mounted = (9, refl); closed = refl; unused = refl; idle_count = refl })
      (omega arith)

-- One cycle before the time-out.
abbrev ready_idle : Ctx
ready_idle = record idle_context { idle = 3 }

ready_context : (usage_and_unmount false ready_idle 3).1 ≡ true
unfolding usage_and_unmount
ready_context = refl

unmount_safe_example : (ready_idle.open_files ≡ []) × (0 < 3 → ready_idle.usage_count ≡ 0)
unmount_safe_example = unmount_safe false 3 ready_idle ready_context
