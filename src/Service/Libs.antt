-- ===== src/Service/Libs.antt =====
-- What the services call that stands outside the repository, or that the process does not decide:
-- other packages, the clock, randomness, and the mail transport. All of it is a parameter.
use todo_chat_app.Prelude.{ℕ, String, Bool, false, Option, List}
use todo_chat_app.Prelude.Int.{ℤ}
use todo_chat_app.Prelude.Text.{Unicode}
use todo_chat_app.Outcome.{Answer, Action}
use todo_chat_app.Model.{Uuid, Time}

pub record Formats : Type 0 where
  pub unicode : Unicode
  -- `uuid.Parse` and `UUID.String`
  pub parse_uuid : String → Option Uuid
  pub show_uuid : Uuid → String
  -- `time.Parse(time.RFC3339, s)`
  pub parse_time : String → Option Time
  -- `hex.EncodeToString` and `sha256.Sum256`
  pub hex : List ℕ → String
  pub sha256 : String → List ℕ
  -- `strconv.Atoi`: the number, which an error may accompany, and whether there was none
  pub atoi : String → ℤ × Bool
  -- `int(math.Ceil(float64(a) / float64(b)))`
  pub ceil_div : ℕ → ℤ → ℤ

-- The claim `aud`: absent, a text, a list whose other elements count for nothing, or another value.
pub data Audience : Type 0 where
  no_audience other_audience : Audience
  one_audience : String → Audience
  audiences : List String → Audience

-- The claims that the code reads and writes; `iat` and `exp` are in seconds, and 0 where absent.
-- A text that is absent, or is no text, reads as the empty text, as in the source.
pub record Claims : Type 0 where
  pub sub : String
  pub iss : String
  pub email : String
  pub iat : ℕ
  pub exp : ℕ
  pub name : String
  pub picture : String
  pub email_verified : Bool
  pub aud : Audience

-- An empty `jwt.MapClaims`.
abbrev pub no_claims : Claims
no_claims = record {
  sub = "";
  iss = "";
  email = "";
  iat = 0;
  exp = 0;
  name = "";
  picture = "";
  email_verified = false;
  aud = no_audience;
}

pub record Host (W : Type 0) : Type 0 where
  -- `time.Now()`
  pub now : W → Time
  -- `rand.Read(b)` for `len(b)` bytes, and `rand.Text()`
  pub rand_read : ℕ → Action W (List ℕ)
  pub rand_text : Action W String
  -- `IEmailService`
  pub send_verification_email : String → String → Action W (Unit {0})
  pub send_workspace_invitation_email : String → String → Action W (Unit {0})
  -- `bcrypt.GenerateFromPassword` and `bcrypt.CompareHashAndPassword`
  pub generate_from_password : String → Action W String
  pub password_matches : String → String → Bool
  -- `jwt.NewWithClaims(HS256, claims).SignedString(secret)`
  pub sign : String → Claims → W → Answer String
  -- `jwt.Parse` with the secret, HS256 and the check of `exp` against the clock
  pub parse_hs256 : String → String → W → Answer Claims
