-- ===== src/Http.antt =====
-- What a handler answers (net/http), and the cookies that it sets and reads back.
use pfortainer.Base.{
  ℕ, Bool, not, ◌&&◌, Option, none, some, List, [], ◌∷◌, Text, text_eq, keep, leb, ltb, ◌==◌,
  if◌then◌else◌,
}

-- A redirect with its status and location, an http.Error with its text, a rendered page, or a JSON
-- body with status 200; or no
-- answer, where the handler panicked and net/http closed the connection.
pub data Response : Type 0 where
  redirect : (status : ℕ) (location : Text) → Response
  http_error : (status : ℕ) (message : Text) → Response
  page : (status : ℕ) (template : Text) → Response
  aborted : Response
  json : (body : Text) → Response

-- http.Cookie; `max_age` is none for MaxAge: -1, which deletes the cookie.
pub record Cookie : Type 0 where
  pub name : Text
  pub value : Text
  pub max_age : Option ℕ

-- The cookies that the browser holds.
abbrev pub Jar : Type 0
Jar = List (Text × Text)

-- net/http's validCookieValueByte: http.SetCookie drops every other byte of the value.
unfoldable pub valid_cookie_byte : ℕ → Bool
valid_cookie_byte b =
    leb 0x20 b && ltb b 0x7f && not (b == b'"') && not (b == b';') && not (b == b'\\')

-- r.Cookie(name): the first cookie of that name.
unfoldable pub cookie : Text → Jar → Option Text
cookie n [] = none
cookie n ((k, v) ∷ jar) = if text_eq k n then some v else cookie n jar

-- The browser's jar after the response's Set-Cookie line.
unfoldable pub set_cookie : Cookie → Jar → Jar
unfolding valid_cookie_byte
set_cookie c jar =
    let others = keep (λ entry. not (text_eq entry.0 c.name)) jar in
    elim c.max_age [ none ↦ others | some age ↦ (c.name, keep valid_cookie_byte c.value) ∷ others ]
