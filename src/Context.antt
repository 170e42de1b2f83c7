-- ===== src/Context.antt =====
-- encfs/Context.cpp: the tables of open files and of handles, and the counters of the idle monitor. A
-- `FileNode` is the address that its pointers hold; its handle `fuseFh` never changes.
pub mod Table
pub mod Files
pub mod Erase
pub mod Life
pub mod Idle
pub mod References
pub mod Tests
use encfs.Base.{
  ℕ, zero, suc, ◌+◌, ◌-◌, Bool, true, false, ◌&&◌, not, List, [], ◌∷◌, Option, none, some,
  if◌then◌else◌, ltb, leb, ◌==◌,
}
use encfs.Cipher.Ssl.{r_assert, ◌>>=◌, ◌>>◌}
use encfs.BlockFile.Layer.{Result, fail, ok}

-- A path, by its bytes.
abbrev pub FilePath : Type 0
FilePath = List ℕ

abbrev pub same_path : FilePath → FilePath → Bool
same_path [] [] = true
same_path [] (y ∷ ys) = false
same_path (x ∷ xs) [] = false
same_path (x ∷ xs) (y ∷ ys) = (x == y) && same_path xs ys

-- The calls of `std::unordered_map`, on a list of entries with one entry for a key.
module _ {K V : Type 0} (same : K → K → Bool) where
  pub find : K → List (K × V) → Option V
  find k [] = none
  find k ((j, v) ∷ table) = if same j k then some v else find k table

  pub erase : K → List (K × V) → List (K × V)
  erase k [] = []
  erase k ((j, v) ∷ table) = if same j k then erase k table else (j, v) ∷ erase k table

  pub insert : K → V → List (K × V) → List (K × V)
  insert k v table = (k, v) ∷ erase k table

-- The fields of `EncFS_Context`, with a list of the nodes whose canary was overwritten. `idle` is
-- `idleCount + 1`, since that starts at -1.
pub record Context (R : Type 0) : Type 0 where
  pub open_files : List (FilePath × List ℕ)
  pub fuse_fh_map : List (ℕ × ℕ)
  pub current_fuse_fh : ℕ
  pub usage_count : ℕ
  pub idle : ℕ
  pub is_unmounting : Bool
  pub root : Option R
  pub released : List ℕ

-- `EncFS_Context()`
pub new_context : {R : Type 0} → Context R
new_context = record {
  open_files = [];
  fuse_fh_map = [];
  current_fuse_fh = 1;
  usage_count = 0;
  idle = 0;
  is_unmounting = false;
  root = none;
  released = [];
}

-- `std::find`, and the erasure of what it finds.
abbrev pub contains : ℕ → List ℕ → Bool
contains node [] = false
contains node (x ∷ nodes) = if x == node then true else contains node nodes

abbrev pub erase_first : ℕ → List ℕ → List ℕ
erase_first node [] = []
erase_first node (x ∷ nodes) = if x == node then nodes else x ∷ erase_first node nodes

abbrev pub nodes_at : Option (List ℕ) → List ℕ
nodes_at none = []
nodes_at (some nodes) = nodes

abbrev pub front : List ℕ → Option ℕ
front [] = none
front (x ∷ nodes) = some x

-- The result of `lookupNode`: the front of an empty list is undefined, `none`.
abbrev pub node_of : Option (List ℕ) → Option (Option ℕ)
node_of none = some none
node_of (some nodes) = front nodes >>= λ node. some (some node)

module _ {R : Type 0} (fuse_fh : ℕ → ℕ) where
  -- `lookupNode`
  pub lookup_node : Context R → FilePath → Option (Option ℕ)
  lookup_node ctx path = node_of (find same_path path ctx.open_files)

  -- `renameNode`
  abbrev pub renamed : Context R → FilePath → FilePath → Option (List ℕ) → Context R
  renamed ctx from to none = ctx
  renamed ctx from to (some nodes) = record ctx {
    open_files = insert same_path to nodes (erase same_path from ctx.open_files);
  }

  pub rename_node : Context R → FilePath → FilePath → Context R
  rename_node ctx from to = renamed ctx from to (find same_path from ctx.open_files)

  -- `putNode`
  pub put_node : Context R → FilePath → ℕ → Context R
  put_node ctx path node = record ctx {
    open_files =
        insert same_path path (node ∷ nodes_at (find same_path path ctx.open_files)) ctx.open_files;
    fuse_fh_map = insert ◌==◌ (fuse_fh node) node ctx.fuse_fh_map;
  }

  -- `eraseNode`: without a reference that is left, the handle is forgotten and the canary overwritten.
  abbrev pub forget : Context R → ℕ → List ℕ → Context R
  forget ctx node nodes = if contains node nodes then ctx else record ctx {
    fuse_fh_map = erase ◌==◌ (fuse_fh node) ctx.fuse_fh_map;
    released = node ∷ ctx.released;
  }

  abbrev pub store : Context R → FilePath → List ℕ → Context R
  store ctx path [] = record ctx { open_files = erase same_path path ctx.open_files }
  store ctx path (x ∷ nodes) = record ctx {
    open_files = insert same_path path (x ∷ nodes) ctx.open_files;
  }

  pub erase_node : Context R → FilePath → ℕ → Option (Context R)
  erase_node ctx path node = do
    nodes ← find same_path path ctx.open_files
    r_assert (contains node nodes)
    some (store (forget ctx node (erase_first node nodes)) path (erase_first node nodes))

  -- `nextFuseFh` and `lookupFuseFh`
  pub next_fuse_fh : Context R → Context R × ℕ
  next_fuse_fh ctx = (record ctx { current_fuse_fh = ctx.current_fuse_fh + 1 }, ctx.current_fuse_fh)

  pub lookup_fuse_fh : Context R → ℕ → Option ℕ
  lookup_fuse_fh ctx n = find ◌==◌ n ctx.fuse_fh_map

-- `setRoot`
pub set_root : {R : Type 0} → Context R → Option R → Context R
set_root ctx r = record ctx { root = r }

-- The loop of `getRoot`: the code of an error is `EBUSY` or what `remountFS` returns. `remounts` are its results, in
-- order: the new root, or an error; `none` where there are not enough of them.
abbrev pub ebusy : ℕ
ebusy = 16

abbrev pub counted : {R : Type 0} → Context R → Bool → Context R
counted ctx skip_usage_count =
    if not skip_usage_count then record ctx { usage_count = ctx.usage_count + 1 } else ctx

pub root_loop :
    {R : Type 0} → List (Result R) → Context R → Bool → Option R → Option (Context R × Result R)
root_loop remounts ctx skip (some r) =
    some (if ctx.is_unmounting then (ctx, fail ebusy) else (counted ctx skip, ok r))
root_loop [] ctx skip none = if ctx.is_unmounting then some (ctx, fail ebusy) else none
root_loop (fail errno ∷ remounts) ctx skip none =
    some (if ctx.is_unmounting then (ctx, fail ebusy) else (counted ctx skip, fail errno))
root_loop (ok r ∷ remounts) ctx skip none =
    let again = root_loop remounts (set_root (counted ctx skip) (some r)) skip (some r) in
    if ctx.is_unmounting then some (ctx, fail ebusy) else again

pub get_root : {R : Type 0} → List (Result R) → Context R → Bool → Option (Context R × Result R)
get_root remounts ctx skip = root_loop remounts ctx skip ctx.root

-- `usageAndUnmount`: whether `unmountFS` is called.
abbrev pub is_empty : {K : Type 0} → List K → Bool
is_empty [] = true
is_empty (x ∷ xs) = false

abbrev pub counted_idle : {R : Type 0} → Context R → Context R
counted_idle ctx = record ctx {
  idle = if ctx.usage_count == 0 then ctx.idle + 1 else 1;
  usage_count = 0;
}

abbrev pub unmount_idle : {R : Type 0} → Bool → Context R → ℕ → Context R × Bool
unmount_idle mount_on_demand ctx timeout_cycles =
    if leb ctx.idle timeout_cycles
    then (ctx, false)
    else if not (is_empty ctx.open_files)
    then (ctx, false)
    else (if not mount_on_demand then record ctx { is_unmounting = true } else ctx, true)

abbrev pub unmount_mounted : {R : Type 0} → Bool → Context R → ℕ → Option R → Context R × Bool
unmount_mounted mount_on_demand ctx timeout_cycles none = (ctx, false)
unmount_mounted mount_on_demand ctx timeout_cycles (some r) =
    unmount_idle mount_on_demand (counted_idle ctx) timeout_cycles

pub usage_and_unmount : {R : Type 0} → Bool → Context R → ℕ → Context R × Bool
usage_and_unmount mount_on_demand ctx timeout_cycles =
    unmount_mounted mount_on_demand ctx timeout_cycles ctx.root

-- `unmountFS` of encfs/FileUtils.cpp: a file system that is mounted on demand is only detached.
pub unmount_fs : {R : Type 0} → Bool → Context R → Context R × Bool
unmount_fs mount_on_demand ctx = if mount_on_demand then (set_root ctx none, false) else (ctx, true)

abbrev pub returned : {R : Type 0} → Bool → Context R × Bool → Context R × Bool
returned mount_on_demand (ctx, false) = (ctx, false)
returned mount_on_demand (ctx, true) = unmount_fs mount_on_demand ctx

-- The loop of `idleMonitor`, for `n` rounds at most, while `running` is set: it ends early when
-- `usageAndUnmount` returns true.
abbrev pub go_on :
    {R : Type 0} → (Context R → Context R × Bool) → Context R × Bool → Context R × Bool
go_on loop (ctx, true) = (ctx, true)
go_on loop (ctx, false) = loop ctx

pub idle_monitor : {R : Type 0} → Bool → ℕ → ℕ → Context R → Context R × Bool
idle_monitor mount_on_demand timeout_cycles zero ctx = (ctx, false)
idle_monitor mount_on_demand timeout_cycles (suc n) ctx =
    go_on (idle_monitor mount_on_demand timeout_cycles n)
      (returned mount_on_demand (usage_and_unmount mount_on_demand ctx timeout_cycles))
