-- ===== src/Lulu/Login/Admission.antt =====
-- What it means that a client of the management protocol has logged in.
use protos.Base.{
  ℕ, suc, ◌≤◌, Bool, true, false, List, [], ◌∷◌, ◌++◌, Option, none, some, ◌≡◌, ◌≢◌, refl, ap, ◌∙◌,
  arith,
}
use mathlib.Core.Path.{subst}
use protos.Base.Fallible.{◌>>=◌, >>=-eq-some}
use protos.Lulu.Hello
use protos.Lulu.Hello.{HelloParser}
use protos.Lulu.Connection.{LuluConnection}
use protos.Lulu.Login.{log_in, one_later}
use protos.Users.{User, is_authorized}
use protos.Users.Credentials.{
  HasBoth, IsFirst, IsFirst-behind, authorized-HasBoth, refused-HasBoth, unused-HasBoth,
}

-- The parser of the login's command after a reset and then the last of these reads, of which the
-- latest comes first. What was read before the reset stands behind them.
pub data HelloRead : List (List ℕ) → HelloParser → Type 0 where
  started : (q : HelloParser) (reads : List (List ℕ)) → HelloRead reads (Hello.reset q)
  fed :
      {q q' : HelloParser} {reads : List (List ℕ)} (bs : List ℕ) (count : ℕ)
      → HelloRead reads q
      → Hello.consume q bs ≡ some (count, q')
      → HelloRead (bs ∷ reads) q'

-- Among the bytes that the client has sent there is a login's command that the parser has accepted,
-- and the connection's user is the first in use with its name and its password.
pub record IsLoggedIn (users : List User) (reads : List (List ℕ)) (client_user : Option ℕ)
    : Type 0 where
  pub later : List (List ℕ)
  pub sent : List (List ℕ)
  pub among : reads ≡ later ++ sent
  pub parser : HelloParser
  pub read : HelloRead sent parser
  pub accepted : parser.state ≡ Hello.State.finished
  pub index : ℕ
  pub user : client_user ≡ some index
  pub first : IsFirst parser.text.u_name parser.text.passwd users index

-- What holds in the login phase: the index is that of a parser or the last, the flag of the login
-- tells the truth, and the login's parser has read what came up to some time.
abbrev pub IsHonest : List User → List (List ℕ) → List (List ℕ) → LuluConnection → Type 0
IsHonest users parsed reads c =
    (c.parser_index ≤ 2)
    × (c.client_hello_succeeded ≡ true → IsLoggedIn users reads c.user)
    × (c.parser_index ≡ 0 → HelloRead parsed c.hello)

-- Another read changes nothing of a login before it.
pub later-IsHonest :
    {users : List User} {parsed reads : List (List ℕ)} (c : LuluConnection) (bs : List ℕ)
    → IsHonest users parsed reads c
    → IsHonest users parsed (bs ∷ reads) c
later-IsHonest c bs (l, told, read) = (
  l,
  (λ k.
      let login = told k in
      record {
        later = bs ∷ login.later;
        sent = login.sent;
        among = ap (λ r. bs ∷ r) login.among;
        parser = login.parser;
        read = login.read;
        accepted = login.accepted;
        index = login.index;
        user = login.user;
        first = login.first;
      }),
  read,
)

-- While another parser is in its turn, that of the login has nothing to have read.
pub passed-IsHonest :
    {users : List User} {parsed parsed' reads : List (List ℕ)} (c : LuluConnection)
    → c.parser_index ≢ 0
    → IsHonest users parsed reads c
    → IsHonest users parsed' reads c
passed-IsHonest c n (l, told, read) = (l, told, λ e. absurd (n e))

module _ (name secret : List ℕ) where
  one_later-IsFirst :
      (x : User) (users : List User) (r : Option ℕ) {i : ℕ}
      → ¬ HasBoth name secret x
      → ((j : ℕ) → r ≡ some j → IsFirst name secret users j)
      → one_later r ≡ some i
      → IsFirst name secret (x ∷ users) i
  one_later-IsFirst x users none n ih h = absurd (cc)
  one_later-IsFirst x users (some j) n ih h =
      let same : suc j ≡ _ = cc in
      subst (IsFirst name secret (x ∷ users)) same (IsFirst-behind x n (ih j refl))

  log_in_later-IsFirst :
      (x : User) (users : List User) {i : ℕ}
      → ¬ HasBoth name secret x
      → ((j : ℕ) → log_in name secret users ≡ some (some j) → IsFirst name secret users j)
      → log_in name secret users >>= (λ r. some (one_later r)) ≡ some (some i)
      → IsFirst name secret (x ∷ users) i
  log_in_later-IsFirst x users {i} n ih h =
      let (r, e, f) = >>=-eq-some (log_in name secret users) _ h in
      let same : one_later r ≡ some i = cc in
      one_later-IsFirst x users r n (λ j g. ih j (e ∙ ap some g)) same

  log_in_node-IsFirst :
      (x : User) (users : List User) {i : ℕ} (used : Bool) (authorized : Option Bool)
      → x.in_use ≡ used
      → is_authorized x name secret ≡ authorized
      → ((j : ℕ) → log_in name secret users ≡ some (some j) → IsFirst name secret users j)
      → log_in name secret (x ∷ users) ≡ some (some i)
      → IsFirst name secret (x ∷ users) i
  unfolding log_in
  log_in_node-IsFirst x users false a u e ih h =
      log_in_later-IsFirst x users (unused-HasBoth name secret x u) ih (ground arith)
  log_in_node-IsFirst x users true none u e ih h = absurd (ground arith)
  log_in_node-IsFirst x users true (some false) u e ih h =
      log_in_later-IsFirst x users (refused-HasBoth name secret x e) ih (ground arith)
  log_in_node-IsFirst x users true (some true) u e ih h = record {
    before = [];
    user = x;
    after = users;
    at = refl;
    place = ground arith;
    has = authorized-HasBoth name secret x u e;
    none_before = tt;
  }

  -- A login that succeeds has found the first user with both.
  pub log_in-IsFirst :
      (users : List User) {i : ℕ}
      → log_in name secret users ≡ some (some i)
      → IsFirst name secret users i
  log_in-IsFirst [] h = unfold log_in in absurd (cc)
  log_in-IsFirst (x ∷ users) h =
      log_in_node-IsFirst x users x.in_use (is_authorized x name secret) refl refl
        (λ j. log_in-IsFirst users) h
