-- ===== src/Cookies.antt =====
-- irssi-icq/src/protocols/oscar/msgcookie.c: the cookies of messages, a list of a session. A cookie is known by
-- its address; the cookies of the list and that of the caller are not NULL. `now` is what time() returns. What is
-- freed is not modelled.
pub mod Map
pub mod Cache
mod Examples
use irssi_icq.Base.{
  ℕ, List, [], ◌∷◌, Option, none, some, Bool, true, false, ◌==◌, ◌&&◌, if◌then◌else◌, take,
  bytes_eq,
}

pub record Cookie : Type 0 where
  pub addr : ℕ
  pub cookie : List ℕ
  pub type : ℕ
  pub payload : ℕ
  pub addtime : ℕ

-- The test of the loops: the type and eight bytes.
abbrev pub is_cookie : Cookie → List ℕ → ℕ → Bool
is_cookie cur cookie type = cur.type == type && bytes_eq (take 8 cur.cookie) (take 8 cookie)

unfoldable pub checkcookie : List Cookie → List ℕ → ℕ → Option Cookie
checkcookie [] cookie type = none
checkcookie (cur ∷ rest) cookie type =
    if is_cookie cur cookie type then some cur else checkcookie rest cookie type

-- The loop of aim_cookie_free, which goes on behind the cookie.
unfoldable pub cookie_free : List Cookie → ℕ → List Cookie
cookie_free [] cookie = []
cookie_free (cur ∷ rest) cookie =
    if cur.addr == cookie then cookie_free rest cookie else cur ∷ cookie_free rest cookie

unfoldable pub mkcookie : ℕ → List ℕ → ℕ → ℕ → Cookie
mkcookie addr c type payload = record {
  addr = addr;
  cookie = take 8 c;
  type = type;
  payload = payload;
  addtime = 0;
}

-- The time of the cookie at an address.
unfoldable pub touch : ℕ → List Cookie → ℕ → List Cookie
touch now [] cookie = []
touch now (cur ∷ rest) cookie =
    if cur.addr == cookie then record cur { addtime = now } ∷ rest else cur ∷ touch now rest cookie

-- 1 for an update, 0 for a cookie that is new in the list.
unfoldable pub cachecookie : ℕ → List Cookie → Cookie → ℕ × List Cookie
unfolding checkcookie cookie_free touch
cachecookie now msgcookies cookie = elim (checkcookie msgcookies cookie.cookie cookie.type) [
  | some newcook ↦
      if newcook.addr == cookie.addr
      then (1, touch now msgcookies cookie.addr)
      else (0, record cookie { addtime = now } ∷ cookie_free msgcookies newcook.addr)
  | none ↦ (0, record cookie { addtime = now } ∷ msgcookies)
]

-- The cookie, which is no longer in the list, and the list.
unfoldable pub uncachecookie : List Cookie → List ℕ → ℕ → Option Cookie × List Cookie
uncachecookie [] cookie type = (none, [])
uncachecookie (cur ∷ rest) cookie type = elim (is_cookie cur cookie type) [
  | true ↦ (some cur, rest)
  | false ↦ (let (found, rest') = uncachecookie rest cookie type in (found, cur ∷ rest'))
]

unfoldable pub msgcookie_gettype : ℕ → ℕ
msgcookie_gettype reqclass =
    if reqclass == 0x01
    then 0x15
    else if reqclass == 0x02
    then 0x13
    else if reqclass == 0x04
    then 0x14
    else if reqclass == 0x08
    then 0x05
    else if reqclass == 0x10
    then 0x11
    else if reqclass == 0x20
    then 0x12
    else 0x00
