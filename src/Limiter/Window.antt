-- ===== src/Limiter/Window.antt =====
-- No more than `max` attempts of one address are let through within one window:
-- go/internal/adminweb/limiter.go.
use ai_env_mgr.Base.{
  ℕ, ◌≤◌, ◌<◌, ◌≡◌, refl, sym, ap, ◌∙◌, subst, inl, inr, String, Bool, true, false, List, [], ◌∷◌,
  ◌++◌, arith, All, All-imp, All-append, Bool-cases, str_eq, eq_iff, ltb, leb, length,
  length-append,
}
use ai_env_mgr.Limiter.{
  LoginLimiter, new_limiter, recent, is_quiet, put, unless_quiet, drop_quiet, kept, stored, allow,
}
use ai_env_mgr.Limiter.Recent.{
  IsAscending, recent_again, recent-append, length-recent, recent-All, recent-IsAscending,
  append-IsAscending, quiet-recent,
}

-- What an address's hits say of the attempts that were let through up to `now`.
record Tells (window max now : ℕ) (hits admitted : List ℕ) : Type 0 where
  ascending : IsAscending hits
  past : All (λ t. t ≤ now) hits
  same : (later : ℕ) → now ≤ later → recent window later hits ≡ recent window later admitted
  bounded : length (recent window now admitted) ≤ max

module _ (window max : ℕ) where
  later-Tells :
      (now later : ℕ) (hits admitted : List ℕ)
      → now ≤ later
      → Tells window max now hits admitted
      → Tells window max later hits admitted
  later-Tells now later hits admitted le t = record {
    ascending = t.ascending;
    past = All-imp _ _ hits (λ u h. omega (arith, h, le)) t.past;
    same = λ z h. t.same z (omega arith);
    bounded =
        let less = length-recent window later (recent window now admitted) in
        let again = ap (λ (v : List ℕ). length v) (recent_again window now later admitted le) in
        omega (arith, less, again, t.bounded);
  }

  pruned-Tells :
      (now : ℕ) (hits admitted : List ℕ)
      → Tells window max now hits admitted
      → Tells window max now (recent window now hits) admitted
  pruned-Tells now hits admitted t = record {
    ascending = recent-IsAscending window now hits t.ascending;
    past = recent-All _ window now hits t.past;
    same = λ z h. recent_again window now z hits h ∙ t.same z h;
    bounded = t.bounded;
  }

  added-Tells :
      (now : ℕ) (hits admitted : List ℕ)
      → Tells window max now hits admitted
      → length (recent window now hits) < max
      → Tells window max now (recent window now hits ++ now ∷ []) (admitted ++ now ∷ [])
  added-Tells now hits admitted t room = record {
    ascending =
        append-IsAscending (recent window now hits) now (recent-All _ window now hits t.past)
          (recent-IsAscending window now hits t.ascending);
    past =
        All-append _ (recent window now hits) (now ∷ []) (recent-All _ window now hits t.past)
          (omega arith, tt);
    same = λ z h.
        recent-append window z (recent window now hits) (now ∷ [])
        ∙ ap (λ v. v ++ recent window z (now ∷ [])) (recent_again window now z hits h ∙ t.same z h)
        ∙ sym (recent-append window z admitted (now ∷ []));
    bounded =
        let split = ap (λ (v : List ℕ). length v) (recent-append window now admitted (now ∷ [])) in
        let sum = length-append (recent window now admitted) (recent window now (now ∷ [])) in
        let one = length-recent window now (now ∷ []) in
        let seen = ap (λ (v : List ℕ). length v) (t.same now (omega arith)) in
        omega (arith, split, sum, one, seen, room);
  }

  dropped-Tells :
      (now : ℕ) (hits admitted : List ℕ)
      → Tells window max now hits admitted
      → Tells window max now (unless_quiet window now hits) admitted
  dropped-Tells now hits admitted t = elim (Bool-cases (is_quiet window now hits)) [
    | inr q ↦ rw q t
    | inl q ↦ rw q (record {
      ascending = tt;
      past = tt;
      same = λ z h. sym (quiet-recent window now z hits h t.ascending q) ∙ t.same z h;
      bounded = t.bounded;
    })
  ]

-- What every address's hits say.
abbrev TellsAll : ℕ → LoginLimiter → (String → List ℕ) → Type 0
TellsAll now l admitted = (k : String) → Tells l.window l.max now (l.hits k) (admitted k)

-- The attempts that were let through, by address.
abbrev pub noted :
    String → ℕ → (String → List ℕ) → LoginLimiter × Bool → LoginLimiter × (String → List ℕ)
noted key now admitted (l, true) = (l, put key (admitted key ++ now ∷ []) admitted)
noted key now admitted (l, false) = (l, admitted)

put-Tells :
    (window max now : ℕ) (key : String) (ts us : List ℕ) (hits admitted : String → List ℕ)
    → Tells window max now ts us
    → ((k : String) → Tells window max now (hits k) (admitted k))
    → (k : String) → Tells window max now (put key ts hits k) (put key us admitted k)
put-Tells window max now key ts us hits admitted t all k = elim (Bool-cases (str_eq k key)) [
  | inl e ↦ rw e t
  | inr e ↦ rw e (all k)
]

put_hits-Tells :
    (window max now : ℕ) (key : String) (ts : List ℕ) (hits admitted : String → List ℕ)
    → Tells window max now ts (admitted key)
    → ((k : String) → Tells window max now (hits k) (admitted k))
    → (k : String) → Tells window max now (put key ts hits k) (admitted k)
put_hits-Tells window max now key ts hits admitted t all k = elim (Bool-cases (str_eq k key)) [
  | inl e ↦ rw e (subst (λ v. Tells window max now ts (admitted v)) (sym ((eq_iff k key).0 e)) t)
  | inr e ↦ rw e (all k)
]

drop_quiet-Tells :
    (now : ℕ) (l : LoginLimiter) (admitted : String → List ℕ)
    → TellsAll now l admitted
    → TellsAll now (drop_quiet now l) admitted
unfolding drop_quiet
drop_quiet-Tells now l admitted all = elim (Bool-cases (ltb 4096 (length l.keys))) [
  | inl h ↦ rw h (λ k. dropped-Tells l.window l.max now (l.hits k) (admitted k) (all k))
  | inr h ↦ rw h all
]

allow-Tells :
    (key : String) (now : ℕ) (l : LoginLimiter) (admitted : String → List ℕ)
    → TellsAll now l admitted
    → TellsAll now
        (noted key now admitted (allow key now l)).0
        (noted key now admitted (allow key now l)).1
unfolding allow kept
allow-Tells key now l admitted all = elim (Bool-cases (leb l.max (length (kept key now l)))) [
  | inl full ↦
      rw (full, allow)
        (put_hits-Tells l.window l.max now key (kept key now l) l.hits admitted
          (pruned-Tells l.window l.max now (l.hits key) (admitted key) (all key)) all)
  | inr room ↦
      rw (room, allow)
        (drop_quiet-Tells now (stored key (kept key now l ++ now ∷ []) l)
          (put key (admitted key ++ now ∷ []) admitted)
          (put-Tells l.window l.max now key _ _ l.hits admitted
            (added-Tells l.window l.max now (l.hits key) (admitted key) (all key) (ground arith))
            all))
]

abbrev pub step : String → ℕ → LoginLimiter × (String → List ℕ) → LoginLimiter × (String → List ℕ)
step key now (l, admitted) = noted key now admitted (allow key now l)

-- Attempts, in order.
unfoldable pub serve :
    List (String × ℕ) → LoginLimiter × (String → List ℕ) → LoginLimiter × (String → List ℕ)
serve [] s = s
serve ((key, now) ∷ calls) s = serve calls (step key now s)

-- The times do not go back; `finish` is the time of the last attempt.
abbrev pub IsInOrder : ℕ → List (String × ℕ) → Type 0
IsInOrder start [] = Unit
IsInOrder start ((key, now) ∷ calls) = (start ≤ now) × IsInOrder now calls

unfoldable pub finish : ℕ → List (String × ℕ) → ℕ
finish start [] = start
finish start ((key, now) ∷ calls) = finish now calls

serve-Tells :
    (start : ℕ) (calls : List (String × ℕ)) (l : LoginLimiter) (admitted : String → List ℕ)
    → IsInOrder start calls
    → TellsAll start l admitted
    → TellsAll (finish start calls) (serve calls (l, admitted)).0 (serve calls (l, admitted)).1
unfolding serve finish
serve-Tells start [] l admitted order all = all
serve-Tells start ((key, now) ∷ calls) l admitted order all =
    let late : TellsAll now l admitted =
      λ k. later-Tells l.window l.max start now (l.hits k) (admitted k) order.0 (all k) in
    let stepped = allow-Tells key now l admitted late in
    serve-Tells now calls (noted key now admitted (allow key now l)).0
      (noted key now admitted (allow key now l)).1 order.1 stepped

drop_quiet-same :
    (now : ℕ) (l : LoginLimiter)
    → ((drop_quiet now l).window ≡ l.window) × ((drop_quiet now l).max ≡ l.max)
unfolding drop_quiet
drop_quiet-same now l = elim (Bool-cases (ltb 4096 (length l.keys))) [
  | inl h ↦ rw h (refl, refl)
  | inr h ↦ rw h (refl, refl)
]

allow-same :
    (key : String) (now : ℕ) (l : LoginLimiter) (admitted : String → List ℕ)
    → ((noted key now admitted (allow key now l)).0.window ≡ l.window)
      × ((noted key now admitted (allow key now l)).0.max ≡ l.max)
unfolding allow
allow-same key now l admitted = elim (Bool-cases (leb l.max (length (kept key now l)))) [
  | inl h ↦ rw (h, allow) (refl, refl)
  | inr h ↦ rw (h, allow) (drop_quiet-same now (stored key (kept key now l ++ now ∷ []) l))
]

serve-same :
    (calls : List (String × ℕ)) (l : LoginLimiter) (admitted : String → List ℕ)
    → ((serve calls (l, admitted)).0.window ≡ l.window)
      × ((serve calls (l, admitted)).0.max ≡ l.max)
unfolding serve
serve-same [] l admitted = (refl, refl)
serve-same ((key, now) ∷ calls) l admitted =
    let rest =
      serve-same calls (noted key now admitted (allow key now l)).0
        (noted key now admitted (allow key now l)).1 in
    let one = allow-same key now l admitted in (rest.0 ∙ one.0, rest.1 ∙ one.1)

-- From a new limiter, after any attempts in the order of time, no address has had more than `max` of
-- them let through within the window that ends at the last.
pub serve-bounded :
    (window max start : ℕ) (calls : List (String × ℕ)) (key : String)
    → IsInOrder start calls
    → length
        (recent window (finish start calls) ((serve calls (new_limiter window max, λ k. [])).1 key))
      ≤ max
unfolding new_limiter
serve-bounded window max start calls key order =
    let fresh = new_limiter window max in
    let none_yet : TellsAll start fresh (λ k. []) =
      λ k. record { ascending = tt; past = tt; same = λ z h. refl; bounded = omega arith } in
    let told = serve-Tells start calls fresh (λ k. []) order none_yet key in
    let same = serve-same calls fresh (λ k. []) in
    let bound : length (
          recent (serve calls (fresh, λ k. [])).0.window (finish start calls)
            ((serve calls (fresh, λ k. [])).1 key))
        ≤ (serve calls (fresh, λ k. [])).0.max =
      told.bounded in
    subst
      (λ v. length (recent window (finish start calls) ((serve calls (fresh, λ k. [])).1 key)) ≤ v)
      same.1
      (subst
        (λ v.
          length (recent v (finish start calls) ((serve calls (fresh, λ k. [])).1 key))
          ≤ (serve calls (fresh, λ k. [])).0.max)
        same.0 bound)
