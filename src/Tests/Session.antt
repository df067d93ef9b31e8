-- ===== src/Tests/Session.antt =====
-- The theorems on sessions at concrete calls: user 7 refreshes, logs in, and verifies an address.
use todo_chat_app.Prelude.{
  ◌≡◌, ◌≢◌, ◌≤◌, ◌↔◌, ◌⊎◌, refl, Bool, true, false, String, List, [], ◌∷◌, Has, arith, str_eq,
  str_eq_iff,
}
use todo_chat_app.Prelude.Int.{pos}
use todo_chat_app.Outcome.{Error, ok, err, answer}
use todo_chat_app.Model.{User, RefreshToken, EmailVerificationToken}
use todo_chat_app.Gorm.Laws.{ReadLaws, WriteLaws, Keeps}
use todo_chat_app.Gorm.Memory.{memory_table, memory-ReadLaws, memory-WriteLaws}
use todo_chat_app.Repository.Token.{delete_by_hash}
use todo_chat_app.Service.Libs.{Host, Claims, no_claims}
use todo_chat_app.Service.Auth.{
  Settings, TokenPair, new_refresh_token, hash_token, issue_token_pair, refresh, login, logout,
  confirm_account_link, verify_email, link_issuer,
}
use todo_chat_app.Service.Auth.Logout.{Ended, logout-Ended}
use todo_chat_app.Service.Auth.Rotation.{StoresToken, TokenLaws, refresh-rotates, refresh_once}
use todo_chat_app.Service.Auth.Access.{Knows, login-Knows, confirm_account_link-Knows}
use todo_chat_app.Service.Auth.Verify.{
  VerifyLaws, Consumed, verify_email-Consumed, verify_email_once,
}
use todo_chat_app.Tests.Run.{running}
use todo_chat_app.Tests.World.{World, db, formats, host, start, user}

abbrev settings : Settings
settings = record { jwt_secret = "k"; access_expiry = pos 900; refresh_expiry = pos 7000 }

abbrev tokens : World → List RefreshToken
tokens w = w.refresh_tokens

abbrev users : World → List User
users w = w.users

user_reads : ReadLaws db.users.reader users
user_reads = memory-ReadLaws _ _ _ _

token_writes : WriteLaws db.refresh_tokens tokens (λ t. t.id) StoresToken
token_writes =
    memory-WriteLaws _ _ _ _ StoresToken (λ l w. refl)
      (λ r w. record { user_id = refl; token_hash = refl })
      (λ r. record { user_id = refl; token_hash = refl })

token_laws : TokenLaws db host tokens (λ t. t.id)
token_laws = record { reads = memory-ReadLaws _ _ _ _; writes = token_writes; apart = λ n w. refl }

-- The token `t1` of user 7; the next random text is `t2`.
abbrev before : World
before = record start { refresh_tokens = new_refresh_token 7 "t1" 500 ∷ []; serial = 2 }

abbrev after : World
after = record start { refresh_tokens = new_refresh_token 7 "t2" 7400 ∷ []; serial = 3 }

abbrev emptied : World
emptied = record start { refresh_tokens = []; serial = 2 }

abbrev pair : TokenPair
pair = record { access_token = "u7"; refresh_token = "t2" }

refresh_runs : refresh db host formats settings "t1" before ≡ ok pair after
unfolding running
refresh_runs = refl

hash_t1 : hash_token formats "t1" ≡ "t1"
unfolding running
hash_t1 = refl

hash_t2 : hash_token formats "t2" ≡ "t2"
unfolding running
hash_t2 = refl

two_texts : ◌≢◌ {A = String} "t2" "t1"
unfolding str_eq
two_texts e = let same : str_eq "t2" "t1" ≡ true = (str_eq_iff "t2" "t1").1 e in cc

fresh_hash : hash_token formats pair.refresh_token ≢ hash_token formats "t1"
fresh_hash e = two_texts (rw (hash_t1, hash_t2) at e)

logout-Ended_example :
    (v : World) × (logout db host formats settings "t1" before ≡ ok tt v)
    × (Ended db host formats settings tokens (λ t. t.id) token_laws "t1" v
        ⊎ ((e : Error) × (delete_by_hash db (hash_token formats "t1") before ≡ err e v)))
logout-Ended_example =
    logout-Ended db host formats settings tokens (λ t. t.id) token_laws "t1" before

-- On this world the deletion does not fail.
logged_out : logout db host formats settings "t1" before ≡ ok tt emptied
unfolding running logout
logged_out = refl

refresh-rotates_example :
    (old row : RefreshToken) × Has old before.refresh_tokens
    × (old.token_hash ≡ hash_token formats "t1")
    × (400 ≤ old.expires_at)
    × (row.user_id ≡ old.user_id)
    × (row.token_hash ≡ hash_token formats "t2")
    × ((x : RefreshToken)
        → Has x after.refresh_tokens
          ↔ ((x ≡ row) ⊎ (Has x before.refresh_tokens × (x.token_hash ≢ hash_token formats "t1"))))
refresh-rotates_example =
    refresh-rotates db host formats settings tokens (λ t. t.id) token_laws "t1" before after pair
      refresh_runs

refresh_once_example : refresh db host formats settings "t1" after ≢ ok pair after
refresh_once_example =
    refresh_once db host formats settings tokens (λ t. t.id) token_laws "t1" before after after pair
      pair fresh_hash refresh_runs

login_runs :
    login db host formats settings " a" "secret 1" before
    ≡ ok
        (user 7 "a", pair)
        (record before {
          refresh_tokens = new_refresh_token 7 "t2" 7400 ∷ new_refresh_token 7 "t1" 500 ∷ [];
          serial = 3;
        })
unfolding running
login_runs = refl

login-Knows_example :
    Knows db host formats settings users user_reads "a" "secret 1" before (user 7 "a")
    × (true ≡ true)
    × (issue_token_pair db host formats settings 7 before
        ≡ ok pair (record before {
          refresh_tokens = new_refresh_token 7 "t2" 7400 ∷ new_refresh_token 7 "t1" 500 ∷ [];
          serial = 3;
        }))
unfolding running
login-Knows_example =
    login-Knows db host formats settings users user_reads " a" "secret 1" before _ (user 7 "a") pair
      login_runs

abbrev link_claims : Claims
link_claims = record no_claims { sub = "g|1"; iss = link_issuer; email = "a"; exp = 9 }

abbrev linking : Host World
linking = record host { parse_hs256 = λ secret text w. answer link_claims }

confirm_runs :
    (v : World) × (confirm_account_link db linking formats settings "p" "secret 1" before
      ≡ ok (user 7 "a", pair) v)
unfolding running
confirm_runs = (_, refl)

confirm_account_link-Knows_example :
    (claims : Claims) × (◌≡◌ (answer link_claims) (answer claims))
    × (claims.iss ≡ link_issuer)
    × ((u : User) × Knows db linking formats settings users user_reads claims.email "secret 1"
          before u
        × (u.id ≢ 0))
confirm_account_link-Knows_example =
    confirm_account_link-Knows db linking formats settings users user_reads "p" "secret 1" before
      confirm_runs.0 (user 7 "a", pair) confirm_runs.1

abbrev verifications : World → List EmailVerificationToken
verifications w = w.verifications

abbrev StoresVerification : EmailVerificationToken → EmailVerificationToken → Type 0
StoresVerification r s = s.token_hash ≡ r.token_hash

verification_writes : WriteLaws db.verifications verifications (λ t. t.id) StoresVerification
verification_writes =
    memory-WriteLaws _ _ _ _ StoresVerification (λ l w. refl) (λ r w. refl) (λ r. refl)

deletes_apart :
    (q : EmailVerificationToken → Bool) → Keeps users (db.verifications.delete_returning q)
unfolding memory_table
deletes_apart q w = refl

users_apart : (u : User) → Keeps verifications (db.users.save u)
unfolding memory_table
users_apart u w = refl

refresh_apart : (t : RefreshToken) → Keeps verifications (db.refresh_tokens.create t)
unfolding memory_table
refresh_apart t w = refl

verify_laws : VerifyLaws db host verifications users (λ t. t.id) StoresVerification
verify_laws = record {
  writes = verification_writes;
  user_reads = user_reads;
  deletes_apart = deletes_apart;
  users_apart = users_apart;
  refresh_apart = refresh_apart;
  random_apart = λ n w. refl;
}

abbrev unverified : World
unverified = record start {
  users = record (user 7 "a") { email_verified = false } ∷ [];
  verifications =
      record { id = 60; user_id = 7; token_hash = "t1"; expires_at = 500; created_at = 0 } ∷ [];
  serial = 2;
}

abbrev verified : World
verified = record start {
  users = user 7 "a" ∷ [];
  refresh_tokens = new_refresh_token 7 "t2" 7400 ∷ [];
  verifications = [];
  serial = 3;
}

verify_runs : verify_email db host formats settings "t1" unverified ≡ ok (user 7 "a", pair) verified
unfolding running
verify_runs = refl

verify_email-Consumed_example :
    (true ≡ true)
    × Consumed db host formats settings verifications users
        (λ t. t.id)
        StoresVerification
        verify_laws
        (hash_token formats "t1")
        7
        unverified
        verified
verify_email-Consumed_example =
    verify_email-Consumed db host formats settings verifications users (λ t. t.id)
      StoresVerification verify_laws "t1" unverified verified (user 7 "a") pair verify_runs

verify_email_once_example :
    verify_email db host formats settings "t1" verified ≢ ok (user 7 "a", pair) verified
verify_email_once_example =
    verify_email_once db host formats settings verifications users (λ t. t.id) StoresVerification
      verify_laws "t1" unverified verified verified (user 7 "a") (user 7 "a") pair pair
      (omega arith) verify_runs
