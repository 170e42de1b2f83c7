-- ===== src/Context/Idle.antt =====
-- The idle monitor: when the file system is unmounted.
use encfs.Base.{
  ℕ, zero, suc, ◌+◌, ◌<◌, Bool, true, false, not, List, [], ◌∷◌, Option, none, some, if◌then◌else◌,
  leb, ◌≡◌, ◌≤◌, ◌⊎◌, inl, inr, refl, sym, ap, ◌∙◌, arith, ==_iff,
}
use mathlib.Core.Path.{subst}
use encfs.Context.{
  FilePath, Context, counted_idle, is_empty, unmount_mounted, usage_and_unmount, set_root,
  unmount_fs, returned, go_on, idle_monitor,
}

module _ {R : Type 0} (on_demand : Bool) (timeout_cycles : ℕ) where
  -- No file is open, a root is set, and nothing was used since the last check.
  pub record IsQuiet (count : ℕ) (ctx : Context R) : Type 0 where
    pub mounted : (r : R) × (ctx.root ≡ some r)
    pub closed : ctx.open_files ≡ []
    pub unused : ctx.usage_count ≡ 0
    pub idle_count : ctx.idle ≡ count

  -- What the monitor leaves once it has called `unmountFS`: the flag is set and its loop is over, or a
  -- file system on demand has no root.
  pub record IsUnmounted (end : Context R × Bool) : Type 0 where
    pub ended : end.1 ≡ not on_demand
    pub detached : on_demand ≡ true → end.0.root ≡ none
    pub flagged : on_demand ≡ false → end.0.is_unmounting ≡ true

  -- Without a root nothing is done any more.
  detached_lem :
      (n : ℕ) (ctx : Context R)
      → ctx.root ≡ none
      → idle_monitor on_demand timeout_cycles n ctx ≡ (ctx, false)
  unfolding idle_monitor usage_and_unmount
  detached_lem zero ctx e = refl
  detached_lem (suc n) ctx e =
      ap
        (λ (o : Option R).
          go_on (idle_monitor on_demand timeout_cycles n)
            (returned on_demand (unmount_mounted on_demand ctx timeout_cycles o)))
        e
      ∙ detached_lem n ctx e

  -- What a check does that finds the cycles complete.
  unmounted_lem :
      (n : ℕ) (ctx : Context R)
      → IsUnmounted (
          go_on (idle_monitor on_demand timeout_cycles n) (
            unmount_fs on_demand
              (if not on_demand then record ctx { is_unmounting = true } else ctx)))
  unfolding unmount_fs set_root
  unmounted_lem n ctx = by_demand on_demand refl
    where
      step : Bool → Context R × Bool
      step b =
          let before = if not b then record ctx { is_unmounting = true } else ctx in
          if b then (record before { root = none }, false) else (before, true)

      gone : Context R
      gone = record ctx { root = none }

      by_demand :
          (b : Bool)
          → on_demand ≡ b
          → IsUnmounted (go_on (idle_monitor on_demand timeout_cycles n) (step on_demand))
      by_demand true e =
          subst
            (λ (x : Bool). IsUnmounted (go_on (idle_monitor on_demand timeout_cycles n) (step x)))
            (sym e)
            (subst IsUnmounted (sym (detached_lem n gone refl)) (record {
              ended = ap not (sym e);
              detached = λ _. refl;
              flagged = λ f. absurd (cc (e, f));
            }))
      by_demand false e =
          subst
            (λ (x : Bool). IsUnmounted (go_on (idle_monitor on_demand timeout_cycles n) (step x)))
            (sym e)
            (record {
              ended = ap not (sym e);
              detached = λ f. absurd (cc (e, f));
              flagged = λ _. refl;
            })

  -- While no file is opened and nothing is used, with a root set and `idleCount`, which is one less than
  -- the count here, below the time-out: `n` rounds of the monitor keep the file system mounted as long
  -- as they leave `idleCount` below the time-out. As soon as a round makes it reach the time-out, the
  -- file system is unmounted: on demand it loses its root and the loop goes on, else the flag is set and
  -- the loop is over.
  pub idle_unmounts :
      (n count : ℕ) (ctx : Context R)
      → IsQuiet count ctx
      → count ≤ timeout_cycles
      → ((count + n ≤ timeout_cycles)
          × ((idle_monitor on_demand timeout_cycles n ctx).1 ≡ false)
          × IsQuiet (count + n) (idle_monitor on_demand timeout_cycles n ctx).0)
        ⊎ ((timeout_cycles < count + n) × IsUnmounted (idle_monitor on_demand timeout_cycles n ctx))
  unfolding idle_monitor usage_and_unmount
  idle_unmounts zero count ctx q low = inl (
    omega (arith, low),
    refl,
    record {
      mounted = q.mounted;
      closed = q.closed;
      unused = q.unused;
      idle_count = omega (arith, q.idle_count);
    },
  )
  idle_unmounts (suc n) count ctx q low = subst Ends (sym (ap step q.mounted.1)) (
      by_tests (leb quiet.idle timeout_cycles) refl (is_empty ctx.open_files) (ap is_empty q.closed)
        (idle_unmounts n (count + 1) quiet))
    where
      quiet : Context R
      quiet = counted_idle ctx

      idle_lem : quiet.idle ≡ count + 1
      idle_lem =
          ap (λ (b : Bool). if b then ctx.idle + 1 else 1) ((==_iff ctx.usage_count 0).1 q.unused)
          ∙ ap (λ (k : ℕ). k + 1) q.idle_count

      Later : Type 0
      Later =
          ((count + 1 + n ≤ timeout_cycles)
            × ((idle_monitor on_demand timeout_cycles n quiet).1 ≡ false)
            × IsQuiet (count + 1 + n) (idle_monitor on_demand timeout_cycles n quiet).0)
          ⊎ ((timeout_cycles < count + 1 + n)
              × IsUnmounted (idle_monitor on_demand timeout_cycles n quiet))

      Ends : Context R × Bool → Type 0
      Ends end =
          ((count + suc n ≤ timeout_cycles) × (end.1 ≡ false) × IsQuiet (count + suc n) end.0)
          ⊎ ((timeout_cycles < count + suc n) × IsUnmounted end)

      after : Context R × Bool → Context R × Bool
      after p = go_on (idle_monitor on_demand timeout_cycles n) (returned on_demand p)

      step : Option R → Context R × Bool
      step o = after (unmount_mounted on_demand ctx timeout_cycles o)

      unmounting : Context R
      unmounting = if not on_demand then record quiet { is_unmounting = true } else quiet

      by_tests :
          (a : Bool)
          → leb quiet.idle timeout_cycles ≡ a
          → (b : Bool) → b ≡ true
          → (IsQuiet (count + 1) quiet → count + 1 ≤ timeout_cycles → Later)
          → Ends (
              after (
                if a then (quiet, false) else if not b then (quiet, false) else (unmounting, true)))
      by_tests false e false f later = absurd (cc f)
      by_tests false e true f later = inr (ground (arith, idle_lem), unmounted_lem n quiet)
      by_tests true e b f later =
          let q' : IsQuiet (count + 1) quiet = record {
            mounted = q.mounted;
            closed = q.closed;
            unused = refl;
            idle_count = idle_lem;
          } in
          elim (later q' (ground (arith, idle_lem))) [
            | inl on ↦ inl (
              omega (arith, on.0),
              on.1,
              record {
                mounted = on.2.mounted;
                closed = on.2.closed;
                unused = on.2.unused;
                idle_count = omega (arith, on.2.idle_count);
              },
            )
            | inr over ↦ inr (omega (arith, over.0), over.1)
          ]

  -- A check that calls `unmountFS` finds no open file; and with a time-out of a cycle or more, nothing
  -- was used since the check before.
  pub unmount_safe :
      (ctx : Context R)
      → (usage_and_unmount on_demand ctx timeout_cycles).1 ≡ true
      → (ctx.open_files ≡ []) × (0 < timeout_cycles → ctx.usage_count ≡ 0)
  unfolding usage_and_unmount
  unmount_safe ctx = by_root ctx.root
    where
      quiet : Context R
      quiet = counted_idle ctx

      empty : (files : List (FilePath × List ℕ)) → is_empty files ≡ true → files ≡ []
      empty [] e = refl
      empty (x ∷ files) e = absurd (cc e)

      by_tests :
          (a : Bool)
          → leb quiet.idle timeout_cycles ≡ a
          → (b : Bool) → is_empty ctx.open_files ≡ b
          → (d : Bool)
          → (if a
              then (let p : Context R × Bool = (quiet, false) in p)
              else if not b
              then (quiet, false)
              else (if d then record quiet { is_unmounting = true } else quiet, true)).1
            ≡ true
          → (ctx.open_files ≡ []) × (0 < timeout_cycles → ctx.usage_count ≡ 0)
      by_tests true e b f d h = absurd (cc h)
      by_tests false e false f d h = absurd (cc h)
      by_tests false e true f d h = (empty ctx.open_files f, λ some_cycles. ground arith)

      by_root :
          (o : Option R)
          → (unmount_mounted on_demand ctx timeout_cycles o).1 ≡ true
          → (ctx.open_files ≡ []) × (0 < timeout_cycles → ctx.usage_count ≡ 0)
      by_root none h = absurd (cc h)
      by_root (some r) h =
          by_tests (leb quiet.idle timeout_cycles) refl (is_empty ctx.open_files) refl
            (not on_demand) h
