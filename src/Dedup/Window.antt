-- ===== src/Dedup/Window.antt =====
-- internal/dedup/index.go: the index over any calls.
use mathlib.Core.Path.{subst}
use mrmi_gateway.Prelude.{
  sym, ℕ, ℤ, ◌+ℤ◌, String, true, false, ◌≡◌, refl, ◌∙◌, some, List, [], ◌∷◌, ◌++◌, arith, eq_iff,
  Bool,
}
use mrmi_gateway.Prelude.Int.{◌<ℤ◌, <ℤ→ltb_ℤ}
use mrmi_gateway.Dedup.{Index, live, purge, seen_or_add_with_ttl, seen_or_add}
use mrmi_gateway.Dedup.Laws.{
  IsValid, find, purge-IsValid, seen_or_add_with_ttl-IsValid, seen_or_add_with_ttl-find,
  seen_or_add-eq, find-purge,
}

-- The calls that change an index, each with its time.
pub data Call : Type 0 where
  add : String → ℤ → Call
  add_with_ttl : String → ℤ → ℤ → Call
  sweep : ℤ → Call

abbrev pub at : Call → ℤ
at (add _ now) = now
at (add_with_ttl _ _ now) = now
at (sweep now) = now

abbrev pub AllBefore : ℤ → List Call → Type 0
AllBefore t [] = Unit
AllBefore t (c ∷ cs) = (at c <ℤ t) × AllBefore t cs

pub AllBefore-append :
    (t : ℤ) (cs cs' : List Call) → AllBefore t cs → AllBefore t cs' → AllBefore t (cs ++ cs')
AllBefore-append t [] cs' b b' = b'
AllBefore-append t (c ∷ cs) cs' b b' = (b.0, AllBefore-append t cs cs' b.1 b')

module _ (sum32 : String → ℕ) where
  unfoldable pub step : Call → Index → Index
  step (add key now) idx = (seen_or_add sum32 key now idx).1
  step (add_with_ttl key ttl now) idx = (seen_or_add_with_ttl sum32 key ttl now idx).1
  step (sweep now) idx = purge now idx

  unfoldable pub run : List Call → Index → Index
  unfolding step
  run [] idx = idx
  run (c ∷ cs) idx = run cs (step c idx)

  pub run-append : (cs cs' : List Call) (idx : Index) → run (cs ++ cs') idx ≡ run cs' (run cs idx)
  unfolding run
  run-append [] cs' idx = refl
  run-append (c ∷ cs) cs' idx = run-append cs cs' (step c idx)

  step-IsValid : (c : Call) (idx : Index) → IsValid idx → IsValid (step c idx)
  unfolding step
  step-IsValid (add key now) idx v =
      subst (λ (r : Bool × Index). IsValid r.1) (sym (seen_or_add-eq sum32 key now idx))
        (seen_or_add_with_ttl-IsValid sum32 key idx.ttl now idx v)
  step-IsValid (add_with_ttl key ttl now) idx v =
      seen_or_add_with_ttl-IsValid sum32 key ttl now idx v
  step-IsValid (sweep now) idx v = purge-IsValid now idx v

  add-keeps :
      (key : String) (ttl now : ℤ) (idx : Index) (j : String) (e : ℤ)
      → IsValid idx
      → find sum32 j idx ≡ some e
      → now <ℤ e
      → find sum32 j (seen_or_add_with_ttl sum32 key ttl now idx).1 ≡ some e
  unfolding live
  add-keeps key ttl now idx j e v h before =
      let (_, after) = seen_or_add_with_ttl-find sum32 key ttl now idx j v in
      after ∙ (ground (arith, eq_iff key j))

  -- A call before the expiry of a key leaves the key and its expiry alone.
  step-keeps :
      (c : Call) (idx : Index) (j : String) (e : ℤ)
      → IsValid idx
      → find sum32 j idx ≡ some e
      → at c <ℤ e
      → find sum32 j (step c idx) ≡ some e
  unfolding step
  step-keeps (add key now) idx j e v h before =
      subst (λ (r : Bool × Index). find sum32 j r.1 ≡ some e)
        (sym (seen_or_add-eq sum32 key now idx)) (add-keeps key idx.ttl now idx j e v h before)
  step-keeps (add_with_ttl key ttl now) idx j e v h before =
      add-keeps key ttl now idx j e v h before
  step-keeps (sweep now) idx j e v h before = ground (arith, find-purge sum32 now idx j v e h)

  run-keeps :
      (cs : List Call) (idx : Index) (j : String) (e : ℤ)
      → IsValid idx
      → find sum32 j idx ≡ some e
      → AllBefore e cs
      → (find sum32 j (run cs idx) ≡ some e) × IsValid (run cs idx)
  unfolding run
  run-keeps [] idx j e v h before = (h, v)
  run-keeps (c ∷ cs) idx j e v h before =
      run-keeps cs (step c idx) j e (step-IsValid c idx v) (step-keeps c idx j e v h before.0)
        before.1

  -- Every index that calls reach from a new one has sixteen shards with distinct keys.
  pub run-IsValid : (cs : List Call) (idx : Index) → IsValid idx → IsValid (run cs idx)
  unfolding run
  run-IsValid [] idx v = v
  run-IsValid (c ∷ cs) idx v = run-IsValid cs (step c idx) (step-IsValid c idx v)

  -- If a valid index admits a key at `now` with `ttl`, then after any further calls on any keys (purges
  -- too), all before now + ttl, the key is reported as seen at every time before now + ttl.
  pub admitted_once :
      (key : String) (ttl now later ttl' : ℤ) (idx : Index) (cs : List Call)
      → IsValid idx
      → (seen_or_add_with_ttl sum32 key ttl now idx).0 ≡ false
      → AllBefore (now +ℤ ttl) cs
      → later <ℤ (now +ℤ ttl)
      → (seen_or_add_with_ttl sum32 key ttl' later
          (run cs (seen_or_add_with_ttl sum32 key ttl now idx).1)).0
        ≡ true
  admitted_once key ttl now later ttl' idx cs v fresh before soon =
      let idx' = (seen_or_add_with_ttl sum32 key ttl now idx).1 in
      let (answer, after) = seen_or_add_with_ttl-find sum32 key ttl now idx key v in
      let held : find sum32 key idx' ≡ some (now +ℤ ttl) =
        after ∙ (ground (arith, eq_iff key key)) in
      let v' = seen_or_add_with_ttl-IsValid sum32 key ttl now idx v in
      let (kept, v'') = run-keeps cs idx' key (now +ℤ ttl) v' held before in
      (seen_or_add_with_ttl-find sum32 key ttl' later (run cs idx') key v'').0
      ∙ rw kept (unfold live in <ℤ→ltb_ℤ later (now +ℤ ttl) soon)

  -- The index's promise, for a key and an index that are given by equations.
  pub seen-later :
      (key key' : String) (ttl now later ttl' : ℤ) (idx idx' : Index) (cs : List Call)
      → key' ≡ key
      → idx' ≡ run cs (seen_or_add_with_ttl sum32 key ttl now idx).1
      → IsValid idx
      → (seen_or_add_with_ttl sum32 key ttl now idx).0 ≡ false
      → AllBefore (now +ℤ ttl) cs
      → later <ℤ (now +ℤ ttl)
      → (seen_or_add_with_ttl sum32 key' ttl' later idx').0 ≡ true
  seen-later key key' ttl now later ttl' idx idx' cs same there valid fresh calls soon =
      rw (same, there) (admitted_once key ttl now later ttl' idx cs valid fresh calls soon)
