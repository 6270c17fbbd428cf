-- ===== src/Scheduler/Service/Changes/Pending.antt =====
-- The projections that are pending (internal/scheduler/scheduler.go, `projectionPending`).
use gmeow.Base.{
  String, Bool, true, false, not, ◌&&◌, ◌||◌, Option, none, some, List, [], ◌∷◌, ◌≡◌, refl, ap, ◌∙◌,
  arith, str_eq, if◌then◌else◌, string_eq, insert, delete, lookup-delete, length, ◌==◌,
}
use gmeow.Scheduler.Types.{ObjectChangeRequest}
use gmeow.Scheduler.Jobs.{blank, contains_string}
use gmeow.Scheduler.Service.{Env, Service, send, publish_object_changes}
use gmeow.Scheduler.Service.Changes.{
  Collected, collect, collect_branch, is_pending, clear_digests, clear_pending,
  notify_objects_changed, note_write, notify_end,
}
use gmeow.Scheduler.Service.Changes.Notify.{contains-collect, is_pending-insert}

pub is_pending-clear :
    (digests : List String) (pending : List (String × Unit {0})) (digest : String)
    → is_pending (clear_digests digests pending) digest
      ≡ (not (contains_string digests digest) && is_pending pending digest)
unfolding clear_digests contains_string is_pending
is_pending-clear [] pending digest = ground arith
is_pending-clear (d ∷ digests) pending digest =
    ground
      (arith, is_pending-clear digests (delete d pending) digest, lookup-delete d digest pending)

collect_branch-pending :
    (d digest : String) (empty repeated waiting q : Bool) (dropped unmarked marked : Collected)
    → is_pending dropped.pending digest ≡ (q || contains_string dropped.digests digest)
    → is_pending unmarked.pending digest ≡ (q || contains_string unmarked.digests digest)
    → is_pending marked.pending digest
      ≡ ((str_eq d digest || q) || contains_string marked.digests digest)
    → is_pending
        (collect_branch d empty repeated true waiting dropped unmarked marked).pending
        digest
      ≡ (q
          || contains_string
              (collect_branch d empty repeated true waiting dropped unmarked marked).digests
              digest)
unfolding collect_branch contains_string
collect_branch-pending d digest true repeated waiting q dropped unmarked marked h k m = h
collect_branch-pending d digest false true waiting q dropped unmarked marked h k m = h
collect_branch-pending d digest false false true q dropped unmarked marked h k m = k
collect_branch-pending d digest false false false q dropped unmarked marked h k m = ground arith

pub is_pending-collect :
    (digests seen : List String) (pending : List (String × Unit {0})) (digest : String)
    → is_pending (collect true digests seen pending).pending digest ≡ (
        is_pending pending digest
        || contains_string (collect true digests seen pending).digests digest)
unfolding collect contains_string
is_pending-collect [] seen pending digest = ground arith
is_pending-collect (d ∷ digests) seen pending digest =
    collect_branch-pending d digest (blank d) (contains_string seen d) (is_pending pending d)
      (is_pending pending digest) (collect true digests seen pending)
      (collect true digests (d ∷ seen) pending)
      (collect true digests (d ∷ seen) (insert d tt pending))
      (is_pending-collect digests seen pending digest)
      (is_pending-collect digests (d ∷ seen) pending digest)
      (is_pending-collect digests (d ∷ seen) (insert d tt pending) digest
        ∙ ap
            (λ b.
              b
              || contains_string (collect true digests (d ∷ seen) (insert d tt pending)).digests
                  digest)
            (is_pending-insert d digest pending))

-- Cleared again, the pending digests are those of before.
pub clear-collect :
    (digests : List String) (pending : List (String × Unit {0})) (digest : String)
    → is_pending
        (clear_digests
          (collect true digests [] pending).digests
          (collect true digests [] pending).pending)
        digest
      ≡ is_pending pending digest
clear-collect digests pending digest = ground (
  arith,
  is_pending-clear (collect true digests [] pending).digests
      (collect true digests [] pending).pending digest,
  is_pending-collect digests [] pending digest,
  contains-collect true digests [] pending digest,
)

pub no_error : Option String → Bool
no_error none = true
no_error (some _) = false

-- The pending digests, and those that a request adds.
abbrev pub pending_after : Bool → List String → List (String × Unit {0}) → String → Bool
pending_after sent digests pending digest =
    is_pending pending digest || (sent && contains_string digests digest && not (blank digest))

collect-pending_after :
    (digests : List String) (pending : List (String × Unit {0})) (digest : String)
    → is_pending (collect true digests [] pending).pending digest
      ≡ pending_after true digests pending digest
unfolding contains_string
collect-pending_after digests pending digest = ground (
  arith,
  is_pending-collect digests [] pending digest,
  contains-collect true digests [] pending digest,
)

or_false : (b : Bool) → b ≡ (b || false)
or_false b = ground arith

notify_end-pending :
    (nothing : Bool) (error : Option String) (request : ObjectChangeRequest) (digest : String)
    (marked sent : Service) (pending : List (String × Unit {0}))
    → request.projection_only ≡ true
    → marked.projection_pending
      ≡ (collect request.projection_only request.object_digests [] pending).pending
    → sent.projection_pending
      ≡ (collect request.projection_only request.object_digests [] pending).pending
    → is_pending
        (notify_end nothing error request
          (collect request.projection_only request.object_digests [] pending)
          marked
          sent).1.1.projection_pending
        digest
      ≡ pending_after
          (no_error
            (notify_end nothing error request
              (collect request.projection_only request.object_digests [] pending)
              marked
              sent).0)
          request.object_digests
          pending
          digest
unfolding notify_end note_write clear_pending no_error
notify_end-pending true error request digest marked sent pending only m s =
    ap (λ p. is_pending p digest) m
    ∙ ap (λ b. is_pending (collect b request.object_digests [] pending).pending digest) only
    ∙ collect-pending_after request.object_digests pending digest
notify_end-pending false none request digest marked sent pending only m s =
    ap (λ p. is_pending p digest) s
    ∙ ap (λ b. is_pending (collect b request.object_digests [] pending).pending digest) only
    ∙ collect-pending_after request.object_digests pending digest
notify_end-pending false (some e) request digest marked sent pending only m s =
    let ds = request.object_digests in
    let cleared : Bool → Service = λ b. clear_pending (collect b ds [] pending).digests sent in
    ap (λ b. is_pending (if b then cleared b else sent).projection_pending digest) only
    ∙ ap (λ p. is_pending (clear_digests (collect true ds [] pending).digests p) digest) s
    ∙ ap
        (λ b.
          is_pending
            (clear_digests (collect true ds [] pending).digests (collect b ds [] pending).pending)
            digest)
        only
    ∙ clear-collect ds pending digest
    ∙ or_false (is_pending pending digest)

module _ (env : Env) where
  -- After a notification that changes only projections, the pending digests are those of before,
  -- and, if it returned no error, every digest of the request that is not blank: a failed one
  -- leaves none of its own pending.
  pub notify-pending :
      (request : ObjectChangeRequest) (service : Service) (digest : String)
      → request.projection_only ≡ true
      → is_pending (notify_objects_changed env request service).1.1.projection_pending digest
        ≡ pending_after
            (no_error (notify_objects_changed env request service).0)
            request.object_digests
            service.projection_pending
            digest
  unfolding notify_objects_changed send
  notify-pending request service digest only =
      let c =
        collect request.projection_only request.object_digests [] service.projection_pending in
      let marked : Service = record service { projection_pending = c.pending } in
      let call = publish_object_changes (record request { object_digests = c.digests }) in
      notify_end-pending (length c.digests == 0) (env.answer service.calls call) request digest
        marked (record marked { calls = call ∷ service.calls }) service.projection_pending only refl
        refl
