-- ===== src/Scheduler/Service/Publish.antt =====
-- What the loops that publish jobs leave (internal/scheduler/scheduler.go).
use gmeow.Base.{
  ℕ, suc, String, Option, none, some, List, [], ◌∷◌, ◌++◌, map, length, ◌≡◌, refl, ap, ◌∙◌, arith,
}
use gmeow.Scheduler.Types.{AnalyzerJob}
use gmeow.Scheduler.Service.{Env, Service, publish, send, normalize, published, publish_jobs}

-- The elements of a list put before another one, the last of them first.
abbrev pub onto {ℓ} : {A : Type ℓ} → List A → List A → List A
onto [] ys = ys
onto (x ∷ xs) ys = onto xs (x ∷ ys)

pub onto-append {ℓ} : {A : Type ℓ} (xs ys zs : List A) → onto (xs ++ ys) zs ≡ onto ys (onto xs zs)
onto-append [] ys zs = refl
onto-append (x ∷ xs) ys zs = onto-append xs ys (x ∷ zs)

module _ (env : Env) where
  published-setup :
      (error : Option String) (before service : Service) (rest : ℕ × Option String × Service)
      → service ≡ record before { calls = service.calls }
      → rest.2 ≡ record before { calls = rest.2.calls }
      → (published env error service rest).2
        ≡ record before { calls = (published env error service rest).2.calls }
  unfolding published
  published-setup (some e) before service rest h k = h
  published-setup none before service rest h k = k

  -- Only the calls change.
  pub publish_jobs-setup :
      (jobs : List AnalyzerJob) (service : Service)
      → (publish_jobs env jobs service).2
        ≡ record service { calls = (publish_jobs env jobs service).2.calls }
  unfolding publish_jobs send
  publish_jobs-setup [] service = refl
  publish_jobs-setup (job ∷ jobs) service =
      let sent : Service = record service {
        calls = publish (normalize env service job) ∷ service.calls;
      } in
      published-setup (env.answer service.calls (publish (normalize env service job))) service sent
        (publish_jobs env jobs sent) refl (publish_jobs-setup jobs sent)

  published-done :
      (error : Option String) (service : Service) (rest : ℕ × Option String × Service)
      → (published env error service rest).1 ≡ none
      → ((published env error service rest).0 ≡ suc rest.0)
        × ((published env error service rest).2 ≡ rest.2)
        × (rest.1 ≡ none)
  unfolding published
  published-done (some e) service rest h = ground arith
  published-done none service rest h = (refl, refl, h)

  pub publish_jobs-done :
      (jobs : List AnalyzerJob) (service : Service)
      → (publish_jobs env jobs service).1 ≡ none
      → ((publish_jobs env jobs service).0 ≡ length jobs)
        × ((publish_jobs env jobs service).2.calls
            ≡ onto (map (λ job. publish (normalize env service job)) jobs) service.calls)
  unfolding publish_jobs send normalize
  publish_jobs-done [] service h = (refl, refl)
  publish_jobs-done (job ∷ jobs) service h =
      let sent : Service = record service {
        calls = publish (normalize env service job) ∷ service.calls;
      } in
      let (count, last, done) =
        published-done (env.answer service.calls (publish (normalize env service job))) sent
          (publish_jobs env jobs sent) h in
      let (count', calls') = publish_jobs-done jobs sent done in
      (count ∙ ap suc count', ap (λ s. Service.calls s) last ∙ calls')
