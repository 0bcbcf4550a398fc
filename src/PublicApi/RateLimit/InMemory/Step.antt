-- ===== src/PublicApi/RateLimit/InMemory/Step.antt =====
-- One check, of the key whose admissions are counted or of another.
use native.Mathlib.Nat.{add-zero}
use mathlib.Core.Path.{subst₂}
use inherent.Prelude.{
  ℕ, ◌+◌, ◌-◌, ◌*◌, ◌≤◌, ◌<◌, String, ◌≡◌, sym, inl, inr, true, false, some, arith, leb→le, leb,
  ◌==◌, str_eq, eq_iff, if◌then◌else◌, Bool-cases,
}
use inherent.Prelude.Dict
use inherent.Prelude.Dict.{Dict, empty, dict_laws}
use inherent.PublicApi.RateLimit.Types.{second, token, one_if, is_allowed}
use inherent.PublicApi.RateLimit.InMemory.{
  BucketState, InMemoryBackend, maybe_cleanup, consume, check_and_consume,
}
use inherent.PublicApi.RateLimit.InMemory.Ledger.{
  Holds, Holds-later, Keeps, maybe_cleanup-Keeps, refilled-Holds,
}

module _ (key : String) (window_seconds limit start n : ℕ) where
  -- An admission spends the token that it counts.
  pub consume-Keeps :
      (now : ℕ) (b : BucketState) (s : InMemoryBackend)
      → Holds (limit * token) (window_seconds * second) start n now (some b)
      → let (r, s') = consume key limit window_seconds b s in
        Keeps key window_seconds limit start (n + one_if r.allowed) now s'
  unfolding consume
  consume-Keeps now b s h = elim (Bool-cases (leb token b.tokens)) [
    | inl enough ↦
        rw (enough, Dict.get-insert_self)
          (let held : token ≤ b.tokens = leb→le _ _ enough in
            let paid : b.tokens - token + (n + 1) * token ≡ b.tokens + n * token = omega arith in
            (h.0, h.1, rw paid h.2))
    | inr short ↦ rw (short, Dict.get-insert_self) (omega arith)
  ]

  -- A call of another key leaves the bucket alone.
  consume-Keeps_other :
      (other : String) (limit' now : ℕ) (b : BucketState) (s : InMemoryBackend)
      → str_eq other key ≡ false
      → Keeps key window_seconds limit start n now s
      → Keeps key window_seconds limit start n now (consume other limit' window_seconds b s).1
  unfolding consume
  consume-Keeps_other other limit' now b s differ h = elim (Bool-cases (leb token b.tokens)) [
    | inl enough ↦ rw (enough, Dict.get-insert, differ) h
    | inr short ↦ rw (short, Dict.get-insert, differ) h
  ]

  module _ (now later now' : ℕ) (s : InMemoryBackend) (width : 0 < window_seconds) where
    no_division_by_zero : (window_seconds == 0) ≡ false
    no_division_by_zero = ground arith

    swept-Keeps :
        now ≤ now'
        → later ≤ now' + window_seconds * second
        → Keeps key window_seconds limit start n now s
        → Keeps key window_seconds limit start n now' (maybe_cleanup window_seconds now' later s)
    swept-Keeps ahead near h =
        maybe_cleanup-Keeps key window_seconds limit start n now' later s near (
          Holds-later (limit * token) (window_seconds * second) start n now now'
            (Dict.get key s.buckets) ahead h)

    check-Keeps_self :
        now ≤ now'
        → later ≤ now' + window_seconds * second
        → Keeps key window_seconds limit start n now s
        → let (r, s') = check_and_consume now' later key limit window_seconds s in
          Keeps key window_seconds limit start (n + one_if (is_allowed r)) now' s'
    unfolding check_and_consume
    check-Keeps_self ahead near h = rw no_division_by_zero (
        consume-Keeps now' _ (maybe_cleanup window_seconds now' later s)
          (refilled-Holds key window_seconds limit start n now' _ (swept-Keeps ahead near h)))

    check-Keeps_other :
        (other : String) (limit' : ℕ)
        → str_eq other key ≡ false
        → now ≤ now'
        → later ≤ now' + window_seconds * second
        → Keeps key window_seconds limit start n now s
        → Keeps key window_seconds limit start n now'
            (check_and_consume now' later other limit' window_seconds s).1
    unfolding check_and_consume
    check-Keeps_other other limit' differ ahead near h = rw no_division_by_zero (
        consume-Keeps_other other limit' now' _ (maybe_cleanup window_seconds now' later s) differ
          (swept-Keeps ahead near h))

    -- A check adds its admission to the count exactly if it is a check of the key.
    pub check-Keeps :
        (other : String) (limit' : ℕ)
        → now ≤ now'
        → later ≤ now' + window_seconds * second
        → (str_eq other key ≡ true → limit' ≡ limit)
        → Keeps key window_seconds limit start n now s
        → let (r, s') = check_and_consume now' later other limit' window_seconds s in
          Keeps key window_seconds limit start
            (n + (if str_eq other key then one_if (is_allowed r) else 0))
            now'
            s'
    check-Keeps other limit' ahead near same h = elim (Bool-cases (str_eq other key)) [
      | inl e ↦ rw e (
          subst₂
            (λ o l.
              let (r, s') = check_and_consume now' later o l window_seconds s in
              Keeps key window_seconds limit start (n + one_if (is_allowed r)) now' s')
            (sym ((eq_iff other key).0 e)) (sym (same e)) (check-Keeps_self ahead near h))
      | inr e ↦ rw (e, add-zero) (check-Keeps_other other limit' e ahead near h)
    ]
