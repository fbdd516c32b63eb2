-- ===== src/Net/HttpClient/Url.antt =====
-- `parse_https_url`, and that it takes apart what a URL is made of.
use polymarket_cpp.Prelude.{
  ℕ, ◌≡◌, ◌≢◌, refl, false, ◌||◌, not, Option, none, some, [], ◌∷◌, ◌++◌, Bytes, codes, arith,
  length, drop, is_empty, starts_with, ◌==◌, if◌then◌else◌, Result, ok, invalid_argument, ◌>>◌,
  throw_if, All, All-append,
}

pub record HttpsUrl : Type 0 where
  pub host : Bytes
  pub port : Bytes
  pub target : Bytes

-- What stands before the first `c`, and from it on where there is one.
unfoldable pub split_at : ℕ → Bytes → Bytes × Option Bytes
split_at c [] = ([], none)
split_at c (x ∷ xs) =
    let (before, rest) = split_at c xs in if x == c then ([], some (x ∷ xs)) else (x ∷ before, rest)

abbrev pub scheme : Bytes
scheme = codes "https://"

abbrev target_of : Option Bytes → Bytes
target_of none = codes "/"
target_of (some rest) = rest

-- `colon == npos ? "443" : authority.substr(colon + 1)`
abbrev port_of : Option Bytes → Bytes
port_of none = codes "443"
port_of (some rest) = drop 1 rest

abbrev parts : Bytes → Option Bytes → HttpsUrl
parts authority rest =
    let (host, port) = split_at b':' authority in
    record { host = host; port = port_of port; target = target_of rest }

abbrev split_url : Bytes → HttpsUrl
split_url url = let (authority, rest) = split_at b'/' url in parts authority rest

-- The first message leaves out the URL that the source appends to it.
unfoldable pub parse_https_url : Bytes → Result HttpsUrl
unfolding split_at
parse_https_url url = do
  throw_if (not (starts_with url scheme)) (invalid_argument "parse_https_url: not https")
  let out = split_url (drop (length scheme) url)
  throw_if (is_empty out.host || is_empty out.port)
      (invalid_argument "parse_https_url: empty host or port")
  ok out

abbrev pub Without : ℕ → Bytes → Type 0
Without c = All (λ x. x ≢ c)

split_at-append :
    (c : ℕ) (xs ys : Bytes) → Without c xs → split_at c (xs ++ c ∷ ys) ≡ (xs, some (c ∷ ys))
unfolding split_at
split_at-append c [] ys h = ground arith
split_at-append c (x ∷ xs) ys h =
    let other : (x == c) ≡ false = ground (arith, h.0) in
    rw (split_at-append c xs ys h.1, other) refl

split_at-absent : (c : ℕ) (xs : Bytes) → Without c xs → split_at c xs ≡ (xs, none)
unfolding split_at
split_at-absent c [] h = refl
split_at-absent c (x ∷ xs) h =
    let other : (x == c) ≡ false = ground (arith, h.0) in rw (split_at-absent c xs h.1, other) refl

-- A URL with its port, and one without.
abbrev pub print_url : HttpsUrl → Bytes
print_url u = scheme ++ ((u.host ++ b':' ∷ u.port) ++ u.target)

abbrev pub print_default : Bytes → Bytes → Bytes
print_default host rest = scheme ++ (host ++ b'/' ∷ rest)

-- A URL that is put together from a host without a slash or colon, a port without a slash, both not empty,
-- and a target that starts with a slash is taken apart into them; where it has no port, the port is 443.
pub parse_https_url-print :
    (host port rest : Bytes)
    → host ≢ []
    → port ≢ []
    → Without b'/' host
    → Without b':' host
    → Without b'/' port
    → (parse_https_url (print_url (record { host = host; port = port; target = b'/' ∷ rest }))
        ≡ ok (record { host = host; port = port; target = b'/' ∷ rest }))
      × (parse_https_url (print_default host rest)
          ≡ ok (record { host = host; port = codes "443"; target = b'/' ∷ rest }))
unfolding parse_https_url
parse_https_url-print host port rest hne pne hs hc ps =
    let authority : Without b'/' (host ++ b':' ∷ port) =
      All-append (λ x. x ≢ b'/') host (b':' ∷ port) hs (colon, ps) in
    (
      rw
          (
            split_at-append b'/' (host ++ b':' ∷ port) rest authority,
            split_at-append b':' host port hc,
            is_empty-false host hne,
            is_empty-false port pne,
          )
          refl,
      rw (split_at-append b'/' host rest hs, split_at-absent b':' host hc, is_empty-false host hne)
          refl,
    )
  where
    colon : ◌≢◌ {A = ℕ} b':' b'/'
    colon = omega arith

    is_empty-false : (xs : Bytes) → xs ≢ [] → is_empty xs ≡ false
    is_empty-false [] h = absurd (h refl)
    is_empty-false (x ∷ xs) h = refl
