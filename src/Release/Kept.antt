-- ===== src/Release/Kept.antt =====
-- Every transaction of go/internal/ops/releases.go moves the table of targets by `Moves`, whether it
-- commits or not.
use ai_env_mgr.Base.{
  ℕ, ◌+◌, String, ◌≡◌, refl, inl, inr, Bool, true, false, Option, none, some, List, Bool-cases,
  Option-cases, first, first-none, ◌==◌, update_where,
}
use ai_env_mgr.Release.{
  Target, TargetStatus, Store, Ran, done, refused, Refusal, Tx, go_on, found, refuse_if, in_tx,
  committed,
}
use ai_env_mgr.Release.Rows.{
  is_pending, open_in, create_target, insert_target, new_target, replaced_row, last_generation,
  finish_target, cancel_pending, release_succeeded, pause_rollout, open_id,
}
use ai_env_mgr.Release.Moves.{
  Moves, stay, rewrites, opens, Moves-trans, replaced-Keeps, finished-Keeps, cancelled-Keeps,
  released-Keeps, new_target-Below,
}

-- What a transaction at work has done to the targets of the store it began in.
abbrev pub Moved : {A : Type 0} → Store → Ran A → Type 0
Moved s (done a s') = Moves s.targets s'.targets
Moved s (refused e) = Unit

pub go_on-Moved :
    {A B : Type 0} (s : Store) (r : Ran A) (k : A → Tx B)
    → Moved s r
    → ((a : A) (s' : Store) → Moved s' (k a s'))
    → Moved s (go_on r k)
unfolding go_on
go_on-Moved s (refused e) k m next = tt
go_on-Moved {B = B} s (done a s') k m next = after (k a s') (next a s')
  where
    after : (r : Ran B) → Moved s' r → Moved s r
    after (refused e) n = tt
    after (done b s'') n = Moves-trans s.targets s'.targets s''.targets m n

pub found-Moved : {A : Type 0} (o : Option A) (s : Store) → Moved s (found o s)
found-Moved none s = tt
found-Moved (some a) s = stay

pub refuse_if-Moved : (b : Bool) (e : Refusal) (s : Store) → Moved s (refuse_if b e s)
refuse_if-Moved true e s = tt
refuse_if-Moved false e s = stay

pub insert-Moved :
    (device now artifact rollout : ℕ) (product : String) (s : Store) (rows : List Target)
    → rows ≡ update_where (open_in device product) (replaced_row now) s.targets
    → Moved s (
        insert_target
          (new_target s.next_id device product artifact rollout
            (last_generation device product rows + 1)
            now)
          (record s { targets = rows }))
unfolding insert_target new_target
insert-Moved device now artifact rollout product s rows e =
    elim (Option-cases (first (open_in device product) rows)) [
      | inr (t, h) ↦ rw (h, insert_target) tt
      | inl h ↦
          rw (h, insert_target)
            (opens rows _ _ (rewrites s.targets rows _ stay (replaced-Keeps device now product) e)
              (new_target-Below s.next_id device artifact rollout now now product rows
                (first-none _ rows h))
              refl)
    ]

pub create_target-Moved :
    (device artifact rollout now : ℕ) (product : String) (s : Store)
    → Moved s (create_target device product artifact rollout now s)
unfolding create_target
create_target-Moved device artifact rollout now product s =
    insert-Moved device now artifact rollout product s _ refl

pub finish_target-Moved :
    (id : ℕ) (status : TargetStatus) (note reported : String) (now : ℕ) (s : Store)
    → Moved s (finish_target id status note reported now s)
unfolding finish_target
finish_target-Moved id status note reported now s = elim (Bool-cases (is_pending status)) [
  | inl p ↦ rw p tt
  | inr p ↦ elim (Option-cases (first (open_id id) s.targets)) [
    | inl h ↦ rw (p, h) tt
    | inr (t, h) ↦
        rw (p, h) (rewrites s.targets _ _ stay (finished-Keeps id now status note reported) refl)
  ]
]

pub cancel_pending-Moved : (rollout now : ℕ) (s : Store) → Moved s (cancel_pending rollout now s)
unfolding cancel_pending
cancel_pending-Moved rollout now s = rewrites s.targets _ _ stay (cancelled-Keeps rollout now) refl

pub release_succeeded-Moved :
    (device : ℕ) (product : String) (now : ℕ) (s : Store)
    → Moved s (release_succeeded device product now s)
unfolding release_succeeded
release_succeeded-Moved device product now s =
    rewrites s.targets _ _ stay (released-Keeps device now product) refl

pub pause_rollout-Moved :
    (id : ℕ) (paused : Bool) (by : String) (now : ℕ) (s : Store)
    → Moved s (pause_rollout id paused by now s)
unfolding pause_rollout
pause_rollout-Moved id paused by now s = elim (Option-cases (first (λ r. r.id == id) s.rollouts)) [
  | inl h ↦ rw (h, pause_rollout) tt
  | inr (r, h) ↦ rw (h, pause_rollout) stay
]

pub in_tx-Moves :
    {A : Type 0} (m : Tx A) (s : Store) → Moved s (m s) → Moves s.targets (in_tx m s).0.targets
unfolding in_tx
in_tx-Moves {A = A} m s h = commits (m s) h
  where
    commits : (r : Ran A) → Moved s r → Moves s.targets (committed s r).targets
    commits (done a s') h = h
    commits (refused e) h = stay
