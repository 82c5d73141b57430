-- ===== src/StateStore/Atomic.antt =====
-- Wherever an update fails or dies, the next read finds the state before it or the state after it.
use context_rollover_guard.Prelude.{
  String, ◌≡◌, refl, sym, ap, ◌∙◌, subst, ◌⊎◌, inl, inr, Bool, true, false, Option, none, some,
  arith, Result, ok, err, ◌>>=◌, >>=-eq-ok, Result-cases,
}
use context_rollover_guard.Session.{SessionState, Platform, recovery}
use context_rollover_guard.StateStore.Codec.{Codec, StoreError, corrupt, recovery_required}
use context_rollover_guard.StateStore.Store.{
  Disk, File, absent, refused, bytes, Owner, Fate, completes, raises_before, dies_before,
  raises_after, dies_after, atomic, decode_own, fallback, load_backup, load, Change, Decision, keep,
  write, decide, carry_out, update, base_of,
}

record IsEmpty (d : Disk) : Type 0 where
  primary : d.primary ≡ absent
  backup : d.backup ≡ absent
  leftover : d.leftover ≡ false

module _ (p : Platform) (k : Codec) (owner : Owner) (at : String) where
  -- What a read that does not give an actionable state is.
  abbrev pub NotActionable : Result StoreError (Option SessionState × Bool) → Type 0
  NotActionable r =
      (r ≡ err corrupt) ⊎ ((s : SessionState) × (r ≡ ok (some s, true)) × (s.state ≡ recovery))

  -- The bytes that a decision writes read back as its state.
  abbrev pub ReadsBack : Result StoreError Decision → Type 0
  ReadsBack (ok (write s raw backup)) = decode_own p k owner at raw ≡ ok s
  ReadsBack _ = Unit {0}

  load_backup-fallback :
      (damaged : Bool) (d : Disk) (o : Option SessionState)
      → load_backup p k owner at damaged d ≡ ok (o, false)
      → (o ≡ none) × (d.backup ≡ absent) × (d.leftover ≡ false) × (damaged ≡ false)
  unfolding load_backup
  load_backup-fallback damaged d o h = go d.backup refl
    where
      go :
          (f : File)
          → d.backup ≡ f
          → (o ≡ none) × (d.backup ≡ absent) × (d.leftover ≡ false) × (damaged ≡ false)
      go absent e = ground arith
      go refused e = ground arith
      go (bytes raw) e = elim (Result-cases (decode_own p k owner at raw)) [
        | inl (t, f) ↦ ground arith
        | inr (x, f) ↦ ground arith
      ]

  load-inversion :
      (d : Disk) (o : Option SessionState)
      → load p k owner at d ≡ ok (o, false)
      → ((raw : String) × (s : SessionState) × (o ≡ some s)
          × (d.primary ≡ bytes raw)
          × (decode_own p k owner at raw ≡ ok s))
        ⊎ ((o ≡ none) × IsEmpty d)
  unfolding load
  load-inversion d o h = go d.primary refl
    where
      go :
          (f : File)
          → d.primary ≡ f
          → ((raw : String) × (s : SessionState) × (o ≡ some s)
              × (d.primary ≡ bytes raw)
              × (decode_own p k owner at raw ≡ ok s))
            ⊎ ((o ≡ none) × IsEmpty d)
      go absent e = inr (ground (arith, load_backup-fallback false d o))
      go refused e = ground arith
      go (bytes raw) e = elim (Result-cases (decode_own p k owner at raw)) [
        | inl (s, f) ↦ inl (raw, s, ground arith, e, f)
        | inr (x, f) ↦ absurd (ground (arith, load_backup-fallback true d o))
      ]

  carry_out-existing :
      (first second : Fate) (s old : SessionState) (raw backup raw0 : String) (d : Disk)
      → d.primary ≡ bytes raw0
      → decode_own p k owner at raw0 ≡ ok old
      → decode_own p k owner at raw ≡ ok s
      → let d' = (carry_out p k owner at first second (ok (write s raw backup)) d).1 in
        (load p k owner at d' ≡ ok (some old, false)) ⊎ (load p k owner at d' ≡ ok (some s, false))
  unfolding carry_out atomic load
  carry_out-existing completes completes s old raw backup raw0 d h g f = inr (ground (arith, f))
  carry_out-existing completes raises_before s old raw backup raw0 d h g f = inl (ground arith)
  carry_out-existing completes dies_before s old raw backup raw0 d h g f = inl (ground arith)
  carry_out-existing completes raises_after s old raw backup raw0 d h g f = inr (ground arith)
  carry_out-existing completes dies_after s old raw backup raw0 d h g f = inr (ground arith)
  carry_out-existing raises_before second s old raw backup raw0 d h g f = inl (ground arith)
  carry_out-existing dies_before second s old raw backup raw0 d h g f = inl (ground arith)
  carry_out-existing raises_after second s old raw backup raw0 d h g f = inl (ground arith)
  carry_out-existing dies_after second s old raw backup raw0 d h g f = inl (ground arith)

  carry_out-first :
      (first second : Fate) (s : SessionState) (raw backup : String) (d : Disk)
      → IsEmpty d
      → decode_own p k owner at raw ≡ ok s
      → decode_own p k owner at backup ≡ ok s
      → let d' = (carry_out p k owner at first second (ok (write s raw backup)) d).1 in
        (load p k owner at d' ≡ ok (none, false))
        ⊎ (load p k owner at d' ≡ ok (some s, false))
        ⊎ NotActionable (load p k owner at d')
  unfolding carry_out atomic load load_backup
  carry_out-first completes completes s raw backup d h f g = inr (inl (ground arith))
  carry_out-first completes raises_before s raw backup d h f g =
      inr (inr (inr (fallback p k owner at s, ground arith, refl)))
  carry_out-first completes dies_before s raw backup d h f g =
      inr (inr (inr (fallback p k owner at s, ground arith, refl)))
  carry_out-first completes raises_after s raw backup d h f g = inr (inl (ground arith))
  carry_out-first completes dies_after s raw backup d h f g = inr (inl (ground arith))
  carry_out-first raises_before second s raw backup d h f g = inl (ground arith)
  carry_out-first dies_before second s raw backup d h f g = inr (inr (inl (ground arith)))
  carry_out-first raises_after second s raw backup d h f g =
      inr (inr (inr (fallback p k owner at s, ground arith, refl)))
  carry_out-first dies_after second s raw backup d h f g =
      inr (inr (inr (fallback p k owner at s, ground arith, refl)))

  decide-first :
      (change : Change) (s : SessionState) (raw backup : String)
      → decide p k owner at change (none, false) ≡ ok (write s raw backup)
      → backup ≡ raw
  unfolding decide
  decide-first change s raw backup h = ground arith

  decide-fallback :
      (change : Change) (o : Option SessionState)
      → decide p k owner at change (o, true) ≡ err recovery_required
  unfolding decide base_of
  decide-fallback change o = refl

  -- What the next read finds after an update, by what it would have found before.
  abbrev pub IsAtomic :
      Result StoreError Decision
      → Result StoreError (Option SessionState × Bool)
      → Result StoreError (Option SessionState × Bool)
      → Type 0
  IsAtomic decision before after =
      (after ≡ before)
      ⊎ ((s : SessionState) × (raw backup : String) × (decision ≡ ok (write s raw backup))
          × (after ≡ ok (some s, false)))
      ⊎ ((before ≡ ok (none, false)) × NotActionable after)

  write-IsAtomic :
      (change : Change) (first second : Fate) (d : Disk) (o : Option SessionState)
      (s : SessionState) (raw backup : String)
      → load p k owner at d ≡ ok (o, false)
      → decide p k owner at change (o, false) ≡ ok (write s raw backup)
      → decode_own p k owner at raw ≡ ok s
      → IsAtomic
          (ok (write s raw backup))
          (ok (o, false))
          (load p k owner at (carry_out p k owner at first second (ok (write s raw backup)) d).1)
  write-IsAtomic change first second d o s raw backup h g f = elim (load-inversion d o h) [
    | inl (raw0, old, is_old, there, reads) ↦
        elim (carry_out-existing first second s old raw backup raw0 d there reads f) [
          | inl kept ↦ inl (ground arith)
          | inr new ↦ inr (inl (s, raw, backup, refl, new))
        ]
    | inr (nothing, empty) ↦
        let same_bytes : backup ≡ raw = decide-first change s raw backup (
          subst (λ x. decide p k owner at change (x, false) ≡ ok (write s raw backup)) nothing g) in
        let reads : decode_own p k owner at backup ≡ ok s =
          subst (λ b. decode_own p k owner at b ≡ ok s) (sym same_bytes) f in
        let before : ok (o, false) ≡ ok (none, false) = ap (λ x. ok (x, false)) nothing in
        elim (carry_out-first first second s raw backup d empty f reads) [
          | inl same_read ↦ inl (same_read ∙ sym before)
          | inr (inl new) ↦ inr (inl (s, raw, backup, refl, new))
          | inr (inr inert) ↦ inr (inr (before, inert))
        ]
  ]

  write-any :
      (change : Change) (first second : Fate) (d : Disk) (loaded : Option SessionState × Bool)
      (s : SessionState) (raw backup : String)
      → load p k owner at d ≡ ok loaded
      → decide p k owner at change loaded ≡ ok (write s raw backup)
      → decode_own p k owner at raw ≡ ok s
      → IsAtomic
          (ok (write s raw backup))
          (ok loaded)
          (load p k owner at (carry_out p k owner at first second (ok (write s raw backup)) d).1)
  write-any change first second d (o, true) s raw backup h g f =
      let stopped = decide-fallback change o in absurd cc
  write-any change first second d (o, false) s raw backup h g f =
      write-IsAtomic change first second d o s raw backup h g f

  -- Wherever the two writes of an update fail or die, what the next read finds is what it would have
  -- found before, or the new state; or, where there was no state before, no actionable state. The
  -- bytes of a new state must read back as that state.
  pub update-IsAtomic :
      (change : Change) (first second : Fate) (d : Disk)
      → ReadsBack (load p k owner at d >>= λ loaded. decide p k owner at change loaded)
      → IsAtomic
          (load p k owner at d >>= λ loaded. decide p k owner at change loaded)
          (load p k owner at d)
          (load p k owner at (update p k owner at change first second d).1)
  unfolding update carry_out
  update-IsAtomic change first second d reads =
      go (load p k owner at d >>= λ loaded. decide p k owner at change loaded) refl
    where
      go :
          (x : Result StoreError Decision)
          → (load p k owner at d >>= λ loaded. decide p k owner at change loaded) ≡ x
          → IsAtomic x
              (load p k owner at d)
              (load p k owner at (carry_out p k owner at first second x d).1)
      go (err e) h = inl refl
      go (ok (keep s)) h = inl refl
      go (ok (write s raw backup)) h =
          let (loaded, e, g) =
            >>=-eq-ok (load p k owner at d) (λ l. decide p k owner at change l) h in
          subst
            (λ before. IsAtomic (ok (write s raw backup)) before (
              load p k owner at
                (carry_out p k owner at first second (ok (write s raw backup)) d).1))
            (sym e)
            (write-any change first second d loaded s raw backup e g
              (subst (λ x. ReadsBack x) h reads))
