-- ===== src/Worker/Undisturbed.antt =====
-- `RunOnce` of go/internal/worker/worker.go from the claim to the report, when nothing comes between.
use mathlib.Core.List.{Memᴰ}
use ai_env_mgr.Base.{
  ℕ, ◌+◌, ◌<◌, ◌≡◌, refl, sym, ap, ◌∙◌, subst, true, some, [], arith, String, first, first_of_only,
  Unique, Unique-eq, str_eq, eq_iff, positive_or, minute, pos, ltb, ==_refl,
}
use ai_env_mgr.Task.{Task, ok, holds}
use ai_env_mgr.Task.Updates.{claim_row}
use ai_env_mgr.Queue.{Queue, claim}
use ai_env_mgr.Queue.Steps.{run}
use ai_env_mgr.Queue.Claiming.{claim-ok, claimed-Memᴰ, claim_row-same}
use ai_env_mgr.Queue.Reports.{holds-id}
use ai_env_mgr.Worker.{Config}
use ai_env_mgr.Worker.Once.{World, Handlers, handle, after_claim, run_once}
use ai_env_mgr.Worker.Outcomes.{Recorded, Recorded-subst, verdict_of}
use ai_env_mgr.Worker.Runs.{Sane, handle-Recorded}

claim_row-holds :
    (owner : String) (lease now later : ℕ) (t : Task)
    → later < now + lease
    → holds t.id owner later (claim_row owner lease now t) ≡ true
unfolding holds claim_row
claim_row-holds owner lease now later t h =
    let mine : str_eq owner owner ≡ true = (eq_iff owner owner).1 refl in
    let live : ltb later (now + lease) ≡ true = ground arith in rw (==_refl t.id, mine, live)

-- A run that claims a task and reports on it within a positive lease, with nothing in between, ids
-- being unique, backoff settings below 2^62 ns and draws in their range, records what the handler
-- made of it: the verdict is in the event and in the row.
pub run_once-Recorded :
    (c : Config) (handlers : Handlers) (w : World) (q q' : Queue) (t : Task)
    → Sane c w
    → claim c.owner c.kinds (pos c.lease) w.claimed_at w.epoch_of w.locked q ≡ (q', ok t)
    → Unique (λ (v : Task). v.id) q'.tasks
    → w.meanwhile ≡ []
    → 0 < c.lease
    → w.reported_at < w.claimed_at + c.lease
    → Recorded t.id (verdict_of (handlers t.kind) t t) (run_once c handlers w q)
unfolding run_once after_claim run
run_once-Recorded c handlers w q q' t sane h unique calm some_lease soon =
    Recorded-subst t.id _ (run_once c handlers w q) (handle c handlers w t q') ran
      (handle-Recorded c handlers w t q' t sane held)
  where
    ran : run_once c handlers w q ≡ handle c handlers w t q'
    ran = ap (after_claim c handlers w) h ∙ ap (λ ops. handle c handlers w t (run ops q')) calm

    lease_is : positive_or minute (pos c.lease) ≡ c.lease
    lease_is = ground arith

    held : first (holds t.id c.owner w.reported_at) q'.tasks ≡ some t
    held =
        let (u, done) =
          claim-ok c.owner c.kinds (pos c.lease) w.claimed_at w.epoch_of w.locked q q' t h in
        let row : t ≡ claim_row c.owner c.lease w.claimed_at u =
          done.taken ∙ ap (λ l. claim_row c.owner l w.claimed_at u) lease_is in
        let named : t.id ≡ u.id =
          ap (λ (v : Task). v.id) row ∙ (claim_row-same c.owner c.lease w.claimed_at u).0 in
        let there : Memᴰ t q'.tasks =
          subst (λ v. Memᴰ v q'.tasks) (sym done.taken)
            (rw done.left (
              claimed-Memᴰ c.owner (positive_or minute (pos c.lease)) w.claimed_at q u
                done.listed)) in
        let holding : holds t.id c.owner w.reported_at t ≡ true =
          subst (λ v. holds t.id c.owner w.reported_at v ≡ true) (sym row)
            (rw named (claim_row-holds c.owner c.lease w.claimed_at w.reported_at u soon)) in
        first_of_only (holds t.id c.owner w.reported_at) q'.tasks t there holding (λ y m g.
          Unique-eq _ q'.tasks y t unique m there (holds-id t.id c.owner w.reported_at y g))
