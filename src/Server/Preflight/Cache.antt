-- ===== src/Server/Preflight/Cache.antt =====
-- `LinuxPreflight::check` of crates/daphne-sc-server/src/preflight.rs, which keeps the outcome of the checks
-- for a time.
use daphne_sc.Prelude.{
  subst, ℕ, ◌-◌, ◌<◌, ◌≡◌, refl, sym, ltb, ltb→lt, Option, none, some, if◌then◌else◌, Bool-cases,
  ◌⊎◌, inl, inr, arith,
}
use daphne_sc.Board.{Board}
use daphne_sc.Server.Preflight.{PreflightStatus}
use daphne_sc.Server.Preflight.Checks.{collect}

pub record CachedPreflight : Type 0 where
  pub checked_at : ℕ
  pub status : PreflightStatus

pub record LinuxPreflight : Type 0 where
  pub ttl : ℕ
  pub cached : Option CachedPreflight

abbrev pub with_ttl : ℕ → LinuxPreflight
with_ttl ttl = record { ttl = ttl; cached = none }

-- `Default`, in milliseconds
abbrev pub default_preflight : LinuxPreflight
default_preflight = record { ttl = 1000; cached = none }

module _ {K F : Type 0} (board : Board K F) where
  -- The end of `check`, where the cache does not serve.
  unfoldable pub refresh : LinuxPreflight → K → K × LinuxPreflight × PreflightStatus
  refresh preflight k =
      let (k', status) = collect board k in
      (
        k',
        record preflight { cached = some (record { checked_at = board.now k'; status = status }) },
        status,
      )

  -- `check`, from the cached outcome on; `elapsed` is 0 where the clock is behind.
  unfoldable pub check_cached :
      LinuxPreflight → K → Option CachedPreflight → K × LinuxPreflight × PreflightStatus
  check_cached preflight k none = refresh preflight k
  check_cached preflight k (some cached) =
      if ltb (board.now k - cached.checked_at) preflight.ttl
      then (k, preflight, cached.status)
      else refresh preflight k

  unfoldable pub check : LinuxPreflight → K → K × LinuxPreflight × PreflightStatus
  unfolding check_cached
  check preflight k = check_cached preflight k preflight.cached

  -- The states that calls of `check` reach from a start with this time to live, while the system
  -- changes in any way between the calls.
  pub data Reached (ttl : ℕ) : LinuxPreflight → K → Type 0 where
    started : {k : K} → Reached ttl (with_ttl ttl) k
    changed :
        {preflight : LinuxPreflight} {k k' : K} → Reached ttl preflight k → Reached ttl preflight k'
    checked :
        {preflight preflight' : LinuxPreflight} {k k' : K} {status : PreflightStatus}
        → Reached ttl preflight k
        → check preflight k ≡ (k', preflight', status)
        → Reached ttl preflight' k'

  -- The outcome of a collection in a state that was reached, finished at this time.
  pub record CollectedAt (ttl time : ℕ) (status : PreflightStatus) : Type 0 where
    pub preflight : LinuxPreflight
    pub start : K
    pub reached : Reached ttl preflight start
    pub outcome : (collect board start).1 ≡ status
    pub finished : board.now (collect board start).0 ≡ time

  abbrev IsFilled : ℕ → Option CachedPreflight → Type 0
  IsFilled ttl none = Unit {0}
  IsFilled ttl (some cached) = CollectedAt ttl cached.checked_at cached.status

  abbrev Holds : ℕ → LinuxPreflight → Type 0
  Holds ttl preflight = (preflight.ttl ≡ ttl) × IsFilled ttl preflight.cached

  -- What a call of `check` gives: the outcome of a collection of its own, or that of an earlier one.
  abbrev pub Recent : ℕ → LinuxPreflight → K → K → LinuxPreflight → PreflightStatus → Type 0
  Recent ttl preflight k k' preflight' status =
      ((collect board k ≡ (k', status))
        × (preflight'.cached ≡ some (record { checked_at = board.now k'; status = status })))
      ⊎ ((time : ℕ) × CollectedAt ttl time status
          × (board.now k - time < ttl)
          × (k' ≡ k)
          × (preflight' ≡ preflight))

  -- What a call leaves.
  abbrev Step : ℕ → LinuxPreflight → K → K × LinuxPreflight × PreflightStatus → Type 0
  Step ttl preflight k (k', preflight', status) =
      Recent ttl preflight k k' preflight' status × Holds ttl preflight'

  module _ {ttl : ℕ} {preflight : LinuxPreflight} {k : K} (reached : Reached ttl preflight k)
      (kept : preflight.ttl ≡ ttl) where
    refresh-Step : Step ttl preflight k (refresh preflight k)
    unfolding refresh
    refresh-Step = (
      inl (refl, refl),
      (
        kept,
        record {
          preflight = preflight;
          start = k;
          reached = reached;
          outcome = refl;
          finished = refl;
        },
      ),
    )

    cached-Step :
        (c : Option CachedPreflight)
        → preflight.cached ≡ c
        → IsFilled ttl c
        → Step ttl preflight k (check_cached preflight k c)
    unfolding check_cached
    cached-Step none held filled = refresh-Step
    cached-Step (some cached) held filled =
        elim (Bool-cases (ltb (board.now k - cached.checked_at) preflight.ttl)) [
          | inr stale ↦ rw stale refresh-Step
          | inl young ↦
              let recent : board.now k - cached.checked_at < ttl = grind (arith, ltb→lt) in
              rw young (
                inr (cached.checked_at, filled, recent, refl, refl),
                (kept, subst (IsFilled ttl) (sym held) filled),
              )
        ]

  check-Step :
      {ttl : ℕ} (preflight : LinuxPreflight) (k : K)
      → Reached ttl preflight k
      → Holds ttl preflight
      → Step ttl preflight k (check preflight k)
  unfolding check
  check-Step preflight k reached (kept, filled) =
      cached-Step reached kept preflight.cached refl filled

  Reached-Holds :
      {ttl : ℕ} {preflight : LinuxPreflight} {k : K} → Reached ttl preflight k → Holds ttl preflight
  Reached-Holds started = (refl, tt)
  Reached-Holds (changed reached) = Reached-Holds reached
  Reached-Holds {ttl} (checked {preflight} {k = k} reached e) =
      subst (λ t. Holds ttl t.1) e (check-Step preflight k reached (Reached-Holds reached)).1

  -- After any calls and any changes of the system, `check` either runs the checks, returns their
  -- outcome and keeps it with the time of their end, or it changes nothing and returns the outcome
  -- that the checks have in a state so reached, where they ended less than the time to live ago.
  pub check-Recent :
      {ttl : ℕ} (preflight : LinuxPreflight) (k : K)
      → Reached ttl preflight k
      → let (k', preflight', status) = check preflight k in
        Recent ttl preflight k k' preflight' status
  check-Recent preflight k reached = (check-Step preflight k reached (Reached-Holds reached)).0
