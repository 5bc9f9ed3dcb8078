-- ===== src/SignIn/Tests.antt =====
-- Sign-ins with toy cryptography, and the theorems at inputs that meet their hypotheses.
use Prim.Native.Char.{code}
use Prim.Native.String.{◌++◌}
use Prim.Native.String.append
use ai_env_mgr.Base.{
  ℕ, zero, suc, ◌+◌, ◌≤◌, ◌<◌, ◌≡◌, refl, ap, ◌∙◌, String, true, false, Option, none, some, List,
  [], ◌∷◌, arith, str_eq, ◌==◌, if◌then◌else◌, length,
}
use mathlib.Core.List.{Memᴰ, ◌++◌ as join}
use ai_env_mgr.Version.{trim_left, trim_right, is_space}
use ai_env_mgr.SignIn.Rows.{
  set_totp, create_admin, normalize_username, new_admin, delete_sessions_for, create_session,
  record_attempt, record_login, failures_of, failures_from, session_by_token, touch_session,
  replace_recovery_hashes, count_enabled,
}
use ai_env_mgr.SignIn.{go_on, Bytes, Admin, Store, ok, Clock, Crypto}
use ai_env_mgr.SignIn.Passwords.{
  split_dollars, parse_hash, matches, mismatch, verify_password, keep_chars, digits_only,
  scan_params, scan_version, argon_threads, normalize_recovery_code,
}
use ai_env_mgr.SignIn.Service.{
  Origin, complete_enrolment, reject, open_session, check_second_factor, without_match, sign_in,
  session, session_lifetime, consume_recovery_code, needs_bootstrap, max_failures_per_user,
}
use ai_env_mgr.SignIn.Steps.{Op, signs_in, enrols, creates, disables, apply, run, empty}
use ai_env_mgr.SignIn.Keeps.{OpenedIn}
use ai_env_mgr.SignIn.Lifetime.{session-OpenedIn}
use ai_env_mgr.SignIn.LastWay.{run-needs_bootstrap}
use ai_env_mgr.SignIn.Recovery.{match_count, consume_recovery_code-match_count}
use ai_env_mgr.SignIn.Guesses.{guesses}
use ai_env_mgr.SignIn.Overlap.{Entry, late, does, back, sign_in_after, enter, run_late}
use ai_env_mgr.SignIn.Lockout.{IsOther, IsTimed, time_after, AreTimed, last_time, run-guesses}
use ai_env_mgr.SignIn.Printing.{
  Printer, has_dollar, hash_text, version_text, params_text, hash_password,
}
use ai_env_mgr.SignIn.HashText.{hash_password-verify_password}

-- Numbers as tally marks, each closed by `;`.
unfoldable put : ℕ → String → String
put zero t = String.◌∷◌ ";" t
put (suc n) t = String.◌∷◌ "x" (put n t)

unfoldable write : List ℕ → String
write [] = ""
write (n ∷ ns) = put n (write ns)

abbrev cons_number : ℕ → Option (List ℕ) → Option (List ℕ)
cons_number n none = none
cons_number n (some ns) = some (n ∷ ns)

unfoldable read : ℕ → String → Option (List ℕ)
read n String.[] = some []
read n (String.◌∷◌ c s) =
    let more = read (suc n) s in
    let rest = read 0 s in if code c == 120 then more else cons_number n rest

read-put : (n m : ℕ) (t : String) → read m (put n t) ≡ cons_number (m + n) (read 0 t)
unfolding read put
read-put zero m t = ap (λ v. cons_number v (read 0 t)) (omega arith)
read-put (suc n) m t = read-put n (suc m) t ∙ ap (λ v. cons_number v (read 0 t)) (omega arith)

read-write : (ns : List ℕ) → read 0 (write ns) ≡ some ns
unfolding read write
read-write [] = refl
read-write (n ∷ ns) =
    read-put n 0 (write ns) ∙ rw (read-write ns) (ap (λ v. some (v ∷ ns)) (omega arith))

put-plain : (n : ℕ) (t : String) → has_dollar t ≡ false → has_dollar (put n t) ≡ false
unfolding has_dollar put
put-plain zero t h = h
put-plain (suc n) t h = put-plain n t h

mark-plain : (n : ℕ) → has_dollar (put n "") ≡ false
unfolding has_dollar
mark-plain n = put-plain n "" refl

write-plain : (ns : List ℕ) → has_dollar (write ns) ≡ false
unfolding write has_dollar
write-plain [] = refl
write-plain (n ∷ ns) = put-plain n (write ns) (write-plain ns)

abbrev fill : ℕ → ℕ → Bytes
fill b zero = []
fill b (suc n) = b ∷ fill b n

length-fill : (b n : ℕ) → length (fill b n) ≡ n
length-fill b zero = refl
length-fill b (suc n) = ap suc (length-fill b n)

-- One number, with the text that is left.
unfoldable tally : ℕ → String → Option (ℕ × String)
tally n String.[] = none
tally n (String.◌∷◌ c s) = let more = tally (suc n) s in if code c == 120 then more else some (n, s)

tally-put : (n m : ℕ) (t : String) → tally m (put n t) ≡ some (m + n, t)
unfolding tally put
tally-put zero m t = ap (λ (v : ℕ). some (v, t)) (omega arith)
tally-put (suc n) m t = tally-put n (suc m) t ∙ ap (λ (v : ℕ). some (v, t)) (omega arith)

put-append : (n : ℕ) (t : String) → put n "" ++ t ≡ put n t
unfolding put
put-append zero t = (λ i. append.cons ";" "" t i) ∙ ap (String.◌∷◌ ";") (λ i. append.nil t i)
put-append (suc n) t = (λ i. append.cons "x" (put n "") t i) ∙ ap (String.◌∷◌ "x") (put-append n t)

abbrev first_part : Option (ℕ × String) → Option ℕ
first_part none = none
first_part (some (n, t)) = some n

abbrev tag_of : String → ℕ
tag_of password = if str_eq password "right" then 1 else if str_eq password "bcdfg" then 2 else 0

abbrev toy : Crypto
toy = record {
  idkey = λ password salt t m p n. fill (tag_of password) n;
  decode = read 0;
  scan_int = λ s. first_part (tally 0 s);
  scan_uint = λ bits s. tally 0 s;
  same_address = str_eq;
  hash_token = λ token. fill 7 32;
  lower = λ s. s;
  totp_valid = λ typed secret. str_eq typed secret;
  open_seed = λ sealed version id. some "123456";
  seal_seed = λ secret id. some (1 ∷ [], "k1");
}

abbrev printer : Printer toy
printer = record {
  encode = write;
  decimal = λ n. put n "";
  decode-encode = read-write;
  encode-plain = write-plain;
  scan_int-decimal = λ n small. ap first_part (tally-put n 0 "") ∙ ap some (omega arith);
  scan_uint-decimal = λ bits n rest small plain.
      ap (tally 0) (put-append n rest)
      ∙ tally-put n 0 rest
      ∙ ap (λ (v : ℕ). some (v, rest)) (omega arith);
  decimal-plain = λ n. mark-plain n;
  length-idkey = λ password salt t m th n one two. length-fill (tag_of password) n;
}

-- A stored hash, cheaper than those that `HashPassword` makes.
abbrev cheap_hash : ℕ → String
cheap_hash tag =
    hash_text (version_text (put 19 "")) (params_text (put 1 "") (put 1 "") (put 1 ""))
      (write (2 ∷ [])) (write (fill tag 3))

abbrev desk : Origin
desk = record { ip = "10.0.0.7"; agent = "browser" }

abbrev at_time : ℕ → Clock
at_time t = record { db = t; wall = t }

abbrev ann : Admin
ann = record {
  id = 1;
  username = "ann";
  email = "ann@example.org";
  password_hash = cheap_hash 1;
  password_set_at = 10;
  totp_secret = 1 ∷ [];
  totp_key_version = "k1";
  totp_enrolled_at = some 20;
  recovery_hashes = cheap_hash 2 ∷ cheap_hash 0 ∷ [];
  role = "admin";
  created_at = 10;
  updated_at = 20;
  last_login_at = none;
  disabled_at = none;
}

abbrev opening : List Op
opening =
    creates
      (record {
        username = "ann";
        email = "ann@example.org";
        password_hash = cheap_hash 1;
        role = "";
      })
      (at_time 10)
    ∷ enrols ann "123456" "123 456" (cheap_hash 2 ∷ cheap_hash 0 ∷ []) (at_time 20)
    ∷ []

abbrev house : Store
house = record { admins = ann ∷ []; sessions = []; attempts = []; next_id = 2 }

opens_house : run toy opening empty ≡ house
unfolding run apply complete_enrolment digits_only keep_chars go_on set_totp create_admin
    normalize_username trim_right trim_left is_space write put new_admin delete_sessions_for
opens_house = refl

abbrev visit : List Op
visit =
    creates
      (record {
        username = "ann";
        email = "ann@example.org";
        password_hash = cheap_hash 1;
        role = "";
      })
      (at_time 10)
    ∷ enrols ann "123456" "123 456" (cheap_hash 2 ∷ cheap_hash 0 ∷ []) (at_time 20)
    ∷ signs_in "ann" "right" " 123456" desk (at_time 100) "token"
    ∷ []

accepted :
    (session toy "token" (at_time 200) (run toy visit empty)).1
    ≡ ok (record ann { last_login_at = some 100 })
unfolding session run apply complete_enrolment digits_only keep_chars go_on set_totp create_admin
    normalize_username trim_right trim_left is_space write put new_admin delete_sessions_for
    session_by_token sign_in failures_of failures_from verify_password parse_hash split_dollars read
    tally scan_params scan_version check_second_factor open_session create_session record_login
    record_attempt touch_session
accepted = refl

session-OpenedIn_example :
    (w : ℕ) × (OpenedIn toy visit empty w (fill 7 32) 1 × (200 < w + session_lifetime))
session-OpenedIn_example =
    session-OpenedIn toy visit "token" (at_time 200) (record ann { last_login_at = some 100 })
      accepted

run-needs_bootstrap_example :
    needs_bootstrap toy (run toy (disables 1 true (at_time 30) ∷ []) house) ≡ false
unfolding count_enabled
run-needs_bootstrap_example = run-needs_bootstrap toy (disables 1 true (at_time 30) ∷ []) house refl

abbrev ann_after : Admin
ann_after = record ann { recovery_hashes = cheap_hash 0 ∷ []; updated_at = 50 }

code_taken : (consume_recovery_code toy ann "bcd-fg" (at_time 50) house).1 ≡ ok true
unfolding consume_recovery_code normalize_recovery_code keep_chars without_match verify_password
    parse_hash split_dollars write put read tally scan_params scan_version go_on
    replace_recovery_hashes
code_taken = refl

code_gone : (consume_recovery_code toy ann "bcd-fg" (at_time 50) house).0.admins ≡ ann_after ∷ []
unfolding consume_recovery_code normalize_recovery_code keep_chars without_match verify_password
    parse_hash split_dollars write put read tally scan_params scan_version go_on
    replace_recovery_hashes
code_gone = refl

consume_recovery_code-match_count_example :
    (suc (match_count toy (normalize_recovery_code toy "bcd-fg") ann_after.recovery_hashes)
      ≡ match_count toy (normalize_recovery_code toy "bcd-fg") ann.recovery_hashes)
    × (suc (length ann_after.recovery_hashes) ≡ length ann.recovery_hashes)
consume_recovery_code-match_count_example =
    consume_recovery_code-match_count toy ann "bcd-fg" (at_time 50) house ann_after code_taken
      (rw code_gone (Memᴰ.head refl)) refl

-- Guesses one after the other, once a second.
abbrev tries : ℕ → ℕ → List Entry
tries zero start = []
tries (suc n) start =
    late 0 "ann" "wrong" "123456" desk (at_time start) "token" ∷ tries n (start + 1)

-- Two more read the failures before the last three of those were recorded.
abbrev guessing : List Entry
guessing =
    does (
      creates
        (record {
          username = "ann";
          email = "ann@example.org";
          password_hash = cheap_hash 1;
          role = "";
        })
        (at_time 10))
    ∷ does (enrols ann "123456" "123 456" (cheap_hash 2 ∷ cheap_hash 0 ∷ []) (at_time 20))
    ∷ late 0 "ann" "right" "000000" desk (at_time 90) "token"
    ∷ join (tries 9 100) (
        late 3 "ann" "wrong" "123456" desk (record { db = 106; wall = 109 }) "token"
        ∷ late 4 "ann" "wrong" "123456" desk (record { db = 106; wall = 110 }) "token"
        ∷ [])

-- The wrong code and seven wrong passwords are compared, the last two of the nine are not, and the two
-- that had read the failures early are.
guessing_runs : guesses "ann" 110 (run_late toy guessing empty []).attempts ≡ 10
unfolding guesses run_late enter back sign_in_after apply complete_enrolment digits_only keep_chars
    go_on set_totp create_admin normalize_username trim_right trim_left is_space write put new_admin
    delete_sessions_for failures_of failures_from verify_password parse_hash split_dollars read
    tally scan_params scan_version check_second_factor consume_recovery_code normalize_recovery_code
    without_match record_attempt reject
guessing_runs = refl

guessing-AreTimed : AreTimed 4 5 guessing
unfolding AreTimed IsTimed IsOther time_after
guessing-AreTimed = omega arith

run-guesses_example :
    guesses "ann" (last_time 5 guessing) (run_late toy guessing empty []).attempts
    ≤ max_failures_per_user + 4
run-guesses_example = run-guesses toy 4 5 guessing "ann" guessing-AreTimed

abbrev made : String
made =
    hash_text (version_text (put 19 "")) (params_text (put 65536 "") (put 3 "") (put 2 ""))
      (write (2 ∷ [])) (write (fill 1 32))

made_of : hash_password toy printer (2 ∷ []) 8 "right" ≡ some made
unfolding hash_password argon_threads
made_of = refl

hash_password-verify_password_example :
    (verify_password toy made "right" ≡ matches) × (verify_password toy made "wrong" ≡ mismatch)
unfolding argon_threads
hash_password-verify_password_example =
    hash_password-verify_password toy printer (2 ∷ []) 8 "right" made "wrong" made_of
