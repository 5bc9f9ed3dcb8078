-- ===== src/Limiter/Tests.antt =====
-- The limiter on a few attempts, and its theorem at an input that meets its hypotheses.
use ai_env_mgr.Base.{ℕ, ◌≤◌, ◌≡◌, refl, String, List, [], ◌∷◌, arith, length}
use ai_env_mgr.Limiter.{new_limiter, allow, kept, drop_quiet, recent}
use ai_env_mgr.Limiter.Window.{serve, finish, serve-bounded}

-- Two for each address within ten units of time.
abbrev calls : List (String × ℕ)
calls = ("a", 1) ∷ ("a", 2) ∷ ("b", 3) ∷ ("a", 4) ∷ ("a", 12) ∷ []

-- The third attempt of `a` is refused; the one after the window is let through.
calls_run : (serve calls (new_limiter 10 2, λ k. [])).1 "a" ≡ 1 ∷ 2 ∷ 12 ∷ []
unfolding serve allow kept drop_quiet new_limiter
calls_run = refl

serve-bounded_example :
    length (recent 10 (finish 0 calls) ((serve calls (new_limiter 10 2, λ k. [])).1 "a")) ≤ 2
serve-bounded_example =
    serve-bounded 10 2 0 calls "a"
      (omega arith, (omega arith, (omega arith, (omega arith, (omega arith, tt)))))
