-- ===== src/Tests/Access.antt =====
-- Sessions, signing in and passwords, on a few devices.
use nestwatch.Common.{
  ℕ, ◌+◌, ◌≡◌, inr, refl, true, false, none, some, List, [], ◌∷◌, is_some, arith,
}
use nestwatch.Common.Keyed.{nat_keys, mem?, lookup}
use nestwatch.Sessions.{SessionRecord, Io, FileSessionStore, new, load, create}
use nestwatch.Sessions.Restart.{SessionOp, saving, deleting, creating, run, load-new}
use nestwatch.Sessions.Revoke.{Makes, create-Makes}
use nestwatch.Throttle.{Net, login_max_fails, login_lockout}
use nestwatch.Config.{Config}
use nestwatch.Pairing.{absent}
use nestwatch.Auth.{SignIn, Attempt, flushed, get, chars}
use nestwatch.Auth.Admitted.{Step, logging_in, logging_out, requesting, AllJustified, run-Justified}
use nestwatch.Password.{check_password, is_common, trim_digits}
use nestwatch.Password.Repeated.{check_password-refuses}

abbrev session : ℕ → SessionRecord ℕ ℕ
session k = record { id = k; content = k + 10; expiry_date = 900 }

abbrev at_time : ℕ → Io
at_time t = record { now = t; written = true }

abbrev used : List (Io × SessionOp ℕ ℕ)
used =
    (at_time 1, saving (session 3))
    ∷ (at_time 5, creating (4 ∷ []) (session 3))
    ∷ (at_time 6, deleting 3)
    ∷ []

load-new_example :
    let s = run {Key = ℕ} {Content = ℕ} (new none 0) used in load 60 4 (new s.file 50) ≡ load 60 4 s
load-new_example = load-new used 0 50 60 4 (refl, (refl, (refl, tt))) (omega arith)

abbrev two_devices : FileSessionStore ℕ ℕ
two_devices = record { has_path = true; map = (3, session 3) ∷ (4, session 4) ∷ []; file = none }

create-Makes_example :
    Makes 60
      (3 ∷ 4 ∷ 5 ∷ [])
      (session 3)
      two_devices
      (create (at_time 50) (4 ∷ 5 ∷ []) (session 3) two_devices)
unfolding lookup
create-Makes_example =
    create-Makes (at_time 50) (4 ∷ 5 ∷ []) (session 3) two_devices 60 ((refl, tt), (tt, tt))
      (omega arith) refl

abbrev net : Net ℕ
net = record { to_canonical = λ ip. ip; is_loopback = λ ip. false; localhost = 0 }

abbrev settings : Config
settings = record { providers = []; earned = []; extra = record { date = none; minutes = 0 } }

abbrev signed_out : SignIn ℕ
signed_out = record {
  limiter = record { inner = []; max_failures = login_max_fails; lockout = login_lockout };
  file = absent;
  session = flushed;
}

abbrev right_password : Attempt ℕ
right_password = record {
  ip = 7;
  instant = 5;
  unix = 1000;
  user_agent = none;
  verified = some true;
  token = [];
  redeemed = true;
  removed = true;
}

-- In, a request on the next day, out, and a request that comes too late.
abbrev visit : List (Step ℕ)
visit =
    logging_in right_password
    ∷ requesting settings 90000 get (chars "/api/status")
    ∷ logging_out
    ∷ requesting settings 90001 get (chars "/api/status")
    ∷ []

run-Justified_example : AllJustified net (λ t. t) (λ t. "maths") none signed_out visit
run-Justified_example = run-Justified net (λ t. t) (λ t. "maths") visit signed_out refl

-- "Roblox2024", typed in lower case.
abbrev dressed : List ℕ
dressed = chars "roblox2024"

check_password-refuses_example : is_some (check_password (λ s. s) dressed) ≡ true
check_password-refuses_example =
    check_password-refuses (λ s. s) dressed
      (inr (
        chars "roblox",
        chars "2024",
        (
          unfold is_common in unfold mem? in refl,
          unfold trim_digits in refl,
          (refl, (refl, (refl, (refl, tt)))),
          refl,
        ),
      ))
