-- ===== src/Scheduler/Service/Changes/Notify.antt =====
-- Which digests a notification sends on (internal/scheduler/scheduler.go, `NotifyObjectsChanged`).
use mathlib.Core.Path.{subst}
use gmeow.Base.{
  String, Bool, true, false, not, ◌&&◌, ◌||◌, List, [], ◌∷◌, ◌≡◌, refl, sym, ap, ◌∙◌, arith, str_eq,
  eq_iff, string_eq, insert, lookup-insert, Bool-cases, inl, inr,
}
use gmeow.Scheduler.Jobs.{blank, contains_string}
use gmeow.Scheduler.Service.Changes.{Collected, collect, collect_branch, is_pending}

-- A digest that the notification sends, given those before it and the pending ones.
abbrev pub is_fresh : Bool → List String → List (String × Unit {0}) → String → Bool
is_fresh projection_only seen pending digest =
    not (blank digest)
    && not (contains_string seen digest)
    && not (projection_only && is_pending pending digest)

-- A step, for a digest that is the one asked for, and for one that is not. The Booleans say whether
-- the rest of the loop sends it.
collect_branch-same :
    (d : String) (empty repeated only waiting b : Bool) (dropped unmarked marked : Collected)
    → contains_string dropped.digests d
      ≡ (b && (not empty && not repeated && not (only && waiting)))
    → contains_string unmarked.digests d ≡ false
    → contains_string
        (collect_branch d empty repeated only waiting dropped unmarked marked).digests
        d
      ≡ (not empty && not repeated && not (only && waiting))
unfolding collect_branch contains_string
collect_branch-same d true repeated only waiting b dropped unmarked marked h k = ground arith
collect_branch-same d false true only waiting b dropped unmarked marked h k = ground arith
collect_branch-same d false false true true b dropped unmarked marked h k = ground arith
collect_branch-same d false false true false b dropped unmarked marked h k =
    ground (arith, eq_iff d d)
collect_branch-same d false false false waiting b dropped unmarked marked h k =
    ground (arith, eq_iff d d)

collect_branch-other :
    (d digest : String) (empty repeated only waiting b : Bool) (dropped unmarked marked : Collected)
    → str_eq d digest ≡ false
    → contains_string dropped.digests digest ≡ b
    → contains_string unmarked.digests digest ≡ b
    → contains_string marked.digests digest ≡ b
    → contains_string
        (collect_branch d empty repeated only waiting dropped unmarked marked).digests
        digest
      ≡ b
unfolding collect_branch contains_string
collect_branch-other d digest true repeated only waiting b dropped unmarked marked e h k m = h
collect_branch-other d digest false true only waiting b dropped unmarked marked e h k m = h
collect_branch-other d digest false false true true b dropped unmarked marked e h k m = k
collect_branch-other d digest false false true false b dropped unmarked marked e h k m =
    ground arith
collect_branch-other d digest false false false waiting b dropped unmarked marked e h k m =
    ground arith

is_fresh-seen :
    (only : Bool) (d digest : String) (seen : List String) (pending : List (String × Unit {0}))
    → is_fresh only (d ∷ seen) pending digest
      ≡ (not (str_eq d digest) && is_fresh only seen pending digest)
unfolding contains_string
is_fresh-seen only d digest seen pending = ground arith

pub is_pending-insert :
    (d digest : String) (pending : List (String × Unit {0}))
    → is_pending (insert d tt pending) digest ≡ (str_eq d digest || is_pending pending digest)
unfolding is_pending
is_pending-insert d digest pending = ground (arith, lookup-insert d digest tt pending)

contains-other :
    (d digest : String) (digests : List String) (b : Bool)
    → str_eq d digest ≡ false
    → (contains_string digests digest && b) ≡ (contains_string (d ∷ digests) digest && b)
unfolding contains_string
contains-other d digest digests b h = ground arith

contains-same : (d : String) (digests : List String) → contains_string (d ∷ digests) d ≡ true
unfolding contains_string
contains-same d digests = ground (arith, eq_iff d d)

collect_self :
    (only : Bool) (d : String) (digests seen : List String) (pending : List (String × Unit {0}))
    → contains_string (collect only digests seen pending).digests d
      ≡ (contains_string digests d && is_fresh only seen pending d)
    → contains_string (collect only digests (d ∷ seen) pending).digests d
      ≡ (contains_string digests d && is_fresh only (d ∷ seen) pending d)
    → contains_string (collect only (d ∷ digests) seen pending).digests d
      ≡ (contains_string (d ∷ digests) d && is_fresh only seen pending d)
unfolding collect
collect_self only d digests seen pending h k =
    let fresh = is_fresh-seen only d d seen pending in
    collect_branch-same d (blank d) (contains_string seen d) only (is_pending pending d)
      (contains_string digests d) (collect only digests seen pending)
      (collect only digests (d ∷ seen) pending)
      (collect only digests (d ∷ seen) (insert d tt pending)) h
      (ground (arith, k, fresh, eq_iff d d))
    ∙ ap (λ b. b && is_fresh only seen pending d) (sym (contains-same d digests))

collect-other :
    (only : Bool) (d digest : String) (digests seen : List String)
    (pending : List (String × Unit {0}))
    → str_eq d digest ≡ false
    → contains_string (collect only digests seen pending).digests digest
      ≡ (contains_string digests digest && is_fresh only seen pending digest)
    → contains_string (collect only digests (d ∷ seen) pending).digests digest
      ≡ (contains_string digests digest && is_fresh only (d ∷ seen) pending digest)
    → contains_string (collect only digests (d ∷ seen) (insert d tt pending)).digests digest
      ≡ (contains_string digests digest && is_fresh only (d ∷ seen) (insert d tt pending) digest)
    → contains_string (collect only (d ∷ digests) seen pending).digests digest
      ≡ (contains_string (d ∷ digests) digest && is_fresh only seen pending digest)
unfolding collect
collect-other only d digest digests seen pending other h k m =
    let b = contains_string digests digest && is_fresh only seen pending digest in
    let fresh = is_fresh-seen only d digest seen pending in
    collect_branch-other d digest (blank d) (contains_string seen d) only (is_pending pending d) b
      (collect only digests seen pending) (collect only digests (d ∷ seen) pending)
      (collect only digests (d ∷ seen) (insert d tt pending)) other h
      (ground (arith, k, fresh, other))
      (ground (
        arith,
        m,
        is_pending-insert d digest pending,
        is_fresh-seen only d digest seen (insert d tt pending),
        other,
      ))
    ∙ contains-other d digest digests (is_fresh only seen pending digest) other

-- The loop of a notification sends a digest exactly if the request has it, it is not blank, it
-- was not seen before, and it is not pending where only the projection changes.
pub contains-collect :
    (projection_only : Bool) (digests seen : List String) (pending : List (String × Unit {0}))
    (digest : String)
    → contains_string (collect projection_only digests seen pending).digests digest
      ≡ (contains_string digests digest && is_fresh projection_only seen pending digest)
unfolding collect contains_string
contains-collect only [] seen pending digest = refl
contains-collect only (d ∷ digests) seen pending digest = elim (Bool-cases (str_eq d digest)) [
  | inl same ↦
      subst
        (λ x.
          contains_string (collect only (d ∷ digests) seen pending).digests x
          ≡ (contains_string (d ∷ digests) x && is_fresh only seen pending x))
        ((eq_iff d digest).0 same)
        (collect_self only d digests seen pending (contains-collect only digests seen pending d)
          (contains-collect only digests (d ∷ seen) pending d))
  | inr other ↦
      collect-other only d digest digests seen pending other
        (contains-collect only digests seen pending digest)
        (contains-collect only digests (d ∷ seen) pending digest)
        (contains-collect only digests (d ∷ seen) (insert d tt pending) digest)
]

-- No digest stands twice.
abbrev pub Distinct : List String → Type 0
Distinct [] = Unit
Distinct (d ∷ digests) = (contains_string digests d ≡ false) × Distinct digests

collect_branch-Distinct :
    (d : String) (empty repeated only waiting : Bool) (dropped unmarked marked : Collected)
    → Distinct dropped.digests
    → Distinct unmarked.digests
    → Distinct marked.digests
    → contains_string unmarked.digests d ≡ false
    → contains_string marked.digests d ≡ false
    → Distinct (collect_branch d empty repeated only waiting dropped unmarked marked).digests
unfolding collect_branch
collect_branch-Distinct d true repeated only waiting dropped unmarked marked h k m u w = h
collect_branch-Distinct d false true only waiting dropped unmarked marked h k m u w = h
collect_branch-Distinct d false false true true dropped unmarked marked h k m u w = k
collect_branch-Distinct d false false true false dropped unmarked marked h k m u w = (w, m)
collect_branch-Distinct d false false false waiting dropped unmarked marked h k m u w = (u, k)

not_again :
    (only : Bool) (d : String) (digests seen : List String) (pending : List (String × Unit {0}))
    → contains_string (collect only digests (d ∷ seen) pending).digests d ≡ false
not_again only d digests seen pending = ground (
  arith,
  contains-collect only digests (d ∷ seen) pending d,
  is_fresh-seen only d d seen pending,
  eq_iff d d,
)

-- The loop of a notification sends no digest twice.
pub collect-Distinct :
    (projection_only : Bool) (digests seen : List String) (pending : List (String × Unit {0}))
    → Distinct (collect projection_only digests seen pending).digests
unfolding collect
collect-Distinct only [] seen pending = tt
collect-Distinct only (d ∷ digests) seen pending =
    collect_branch-Distinct d (blank d) (contains_string seen d) only (is_pending pending d)
      (collect only digests seen pending) (collect only digests (d ∷ seen) pending)
      (collect only digests (d ∷ seen) (insert d tt pending))
      (collect-Distinct only digests seen pending)
      (collect-Distinct only digests (d ∷ seen) pending)
      (collect-Distinct only digests (d ∷ seen) (insert d tt pending))
      (not_again only d digests seen pending) (not_again only d digests seen (insert d tt pending))
