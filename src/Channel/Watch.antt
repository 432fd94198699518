-- ===== src/Channel/Watch.antt =====
-- `watchConnectivityState` of src/channel.rs: the polling loop. What each round reads of the shared
-- state and of the clock is the environment's, by the number of the round.
use grpc_php_rs.Common.{
  eqb_ℤ_iff, Bool-cases, ◌-ℤ◌, inr, arith, ◌⊎◌, pos_part, inl, ℕ, zero, suc, ◌≤◌, ◌<◌, ◌≡◌, ◌≢◌,
  ◌↔◌, Bool, true, false, not, Option, none, some, ℤ, pos, ◌≤ℤ◌, ◌<ℤ◌, ◌+ℤ◌, eqb_ℤ, leb_ℤ, ltb_ℤ,
  saturating_sub, if◌then◌else◌,
}
use grpc_php_rs.Host.{Host}
use grpc_php_rs.Error.{GrpcError, PhpResult, Result, ok, map_err, from, ◌>>=◌}
use grpc_php_rs.Timeval.{Timeval, Reading, to_absolute_usec}
use grpc_php_rs.Channel.{Channel}
use grpc_php_rs.Channel.Connectivity.{opened}

pub record Round : Type 0 where
  pub state : ℤ
  pub now : ℤ

-- `(deadline - now).clamp(1, 10_000)`
unfoldable pub wait_usec : ℤ → ℤ → ℤ
unfolding saturating_sub
wait_usec deadline now =
    let left = saturating_sub deadline now in
    if ltb_ℤ left (pos 1) then pos 1 else if ltb_ℤ (pos 10_000) left then pos 10_000 else left

-- The loop from a round on; `none` where the fuel runs out.
pub watch : ℕ → (ℕ → Round) → ℕ → ℤ → ℤ → Option Bool
watch zero rounds i last_state deadline = none
watch (suc f) rounds i last_state deadline =
    let rest = watch f rounds (suc i) last_state deadline in
    if not (eqb_ℤ (rounds i).state last_state)
    then some true
    else if leb_ℤ deadline (rounds i).now
    then some false
    else rest

-- `watchConnectivityState`, for a bound on the number of rounds.
unfoldable watch_connectivity_state :
    ⦃host : Host⦄
    → ℕ
    → Result GrpcError ℕ
    → (ℕ → Round)
    → ℤ
    → Timeval
    → Reading
    → Channel
    → PhpResult (Option Bool)
unfolding opened watch to_absolute_usec
watch_connectivity_state f runtime rounds last_state deadline clock ch =
    opened "watchConnectivityState errorChannel is already closed." ch >>= λ inner.
    map_err from runtime >>= λ rt.
    ok (watch f rounds 0 last_state (to_absolute_usec deadline clock))

-- Sleeping takes at least as long as it was asked to.
abbrev pub SleepsLongEnough : (ℕ → Round) → ℤ → Type 0
SleepsLongEnough rounds deadline =
    (i : ℕ) → (rounds i).now +ℤ wait_usec deadline (rounds i).now ≤ℤ (rounds (suc i)).now

-- How a watch from round `i` ended, in round `j`: every round before it saw the old state ahead of
-- the deadline; the answer is `true` exactly if round `j` saw another state, and `false` only at or
-- after the deadline.
pub record Ends (rounds : ℕ → Round) (i : ℕ) (last_state deadline : ℤ) (answer : Bool) (j : ℕ)
    : Type 0 where
  pub from_start : i ≤ j
  pub earlier :
      (k : ℕ) → i ≤ k → k < j → ((rounds k).state ≡ last_state) × ((rounds k).now <ℤ deadline)
  pub changed : (answer ≡ true) ↔ ((rounds j).state ≢ last_state)
  pub timed_out : answer ≡ false → deadline ≤ℤ (rounds j).now

le_cases : (i k : ℕ) → i ≤ k → (i ≡ k) ⊎ (suc i ≤ k)
le_cases i k h = omega arith

step_earlier :
    (rounds : ℕ → Round) (i : ℕ) (last_state deadline : ℤ) {j : ℕ}
    → (rounds i).state ≡ last_state
    → (rounds i).now <ℤ deadline
    → ((k : ℕ) → suc i ≤ k → k < j → ((rounds k).state ≡ last_state) × ((rounds k).now <ℤ deadline))
    → (k : ℕ) → i ≤ k
    → k < j
    → ((rounds k).state ≡ last_state) × ((rounds k).now <ℤ deadline)
step_earlier rounds i last_state deadline s n later k h l = elim (le_cases i k h) [
  | inl e ↦ rw (← e) (s, n)
  | inr g ↦ later k g l
]

in_time : (deadline now : ℤ) → leb_ℤ deadline now ≡ false → now <ℤ deadline
in_time deadline now h = ground arith

progress :
    (deadline now later : ℤ)
    → now <ℤ deadline
    → now +ℤ wait_usec deadline now ≤ℤ later
    → pos_part (deadline -ℤ later) < pos_part (deadline -ℤ now)
unfolding wait_usec ◌+ℤ◌ ◌-ℤ◌
progress deadline now later h k = ground arith

-- With a clock that advances by at least what each sleep asks for, the loop ends: fuel for one round
-- more than the microseconds that are left at the start is enough, and it ends as `Ends` says.
pub watch_total :
    (f : ℕ) (rounds : ℕ → Round) (i : ℕ) (last_state deadline : ℤ)
    → SleepsLongEnough rounds deadline
    → pos_part (deadline -ℤ (rounds i).now) < f
    → (answer : Bool) × (j : ℕ) × (watch f rounds i last_state deadline ≡ some answer)
      × Ends rounds i last_state deadline answer j
unfolding watch
watch_total zero rounds i last_state deadline sleeps h = elim h [ ]
watch_total (suc f) rounds i last_state deadline sleeps h =
    elim (Bool-cases (eqb_ℤ (rounds i).state last_state)) [
      | inr other ↦ (
        true,
        i,
        ground arith,
        record {
          from_start = omega arith;
          earlier = λ k a b. absurd (omega arith);
          changed = ground arith;
          timed_out = λ e. absurd (cc);
        },
      )
      | inl same ↦ elim (Bool-cases (leb_ℤ deadline (rounds i).now)) [
        | inl over ↦ (
          false,
          i,
          ground arith,
          record {
            from_start = omega arith;
            earlier = λ k a b. absurd (omega arith);
            changed = ground arith;
            timed_out = λ e. ground arith;
          },
        )
        | inr before ↦
            let ahead : (rounds i).now <ℤ deadline = in_time deadline (rounds i).now before in
            let (answer, j, run, ends) = watch_total f rounds (suc i) last_state deadline sleeps (
              omega
                (arith, progress deadline (rounds i).now (rounds (suc i)).now ahead (sleeps i))) in
            (
              answer,
              j,
              ground arith,
              record {
                from_start = omega (arith, ends.from_start);
                earlier =
                    step_earlier rounds i last_state deadline ((eqb_ℤ_iff _ _).0 same) ahead
                      ends.earlier;
                changed = ends.changed;
                timed_out = ends.timed_out;
              },
            )
      ]
    ]
