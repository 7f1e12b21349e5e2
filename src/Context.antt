-- ===== src/Context.antt =====
-- What the service reads of a gRPC call: the metadata, the peer, and the addresses in them
-- (extractClientInfo of internal/service/auth/auth.go, extractIP and peerIP of
-- internal/interceptor).
pub mod Spoofing
pub mod Trimmed
pub mod Tests
use auth_service.Prelude.{
  ℕ, Text, Option, none, some, List, [], ◌∷◌, ◌++◌, bytes, if◌then◌else◌, ◌==◌,
}
use auth_service.Prelude.Maps.{Map, lookup}
use auth_service.Strings.{split, rightmost, split_host_port, cut_last}

-- The metadata, whose keys are in lower case, and the address of the peer.
pub record Context : Type 0 where
  pub metadata : Option (Map (List Text))
  pub peer : Option Text

abbrev values_of : Option (List Text) → List Text
values_of none = []
values_of (some vs) = vs

-- md.Get(key)
unfoldable pub get : Text → Map (List Text) → List Text
get key md = values_of (lookup key md)

-- The first of the values, as `vs[0]` under `len(vs) > 0`.
abbrev pub first : List Text → Option Text
first [] = none
first (v ∷ vs) = some v

abbrev pub or_empty : Option Text → Text
or_empty none = []
or_empty (some s) = s

-- The address of an X-Forwarded-For value: the rightmost that is not blank.
unfoldable pub forwarded : Option Text → Option Text
unfolding split rightmost
forwarded none = none
forwarded (some xff) = rightmost (split b',' xff)

abbrev forwarded_in : Map (List Text) → Option Text
forwarded_in md = forwarded (first (get (bytes "x-forwarded-for") md))

abbrev or_else : Option Text → Option Text → Option Text
or_else none b = b
or_else (some a) b = some a

-- An empty text counts as no address.
abbrev non_empty : Option Text → Option Text
non_empty (some []) = none
non_empty o = o

abbrev peer_host : Option Text → Option Text
peer_host none = none
peer_host (some addr) = split_host_port addr

-- The IP address and the user agent of extractClientInfo.
unfoldable pub extract_client_info : Context → Text × Text
unfolding get forwarded split_host_port
extract_client_info ctx = elim ctx.metadata [
  | none ↦ (or_empty (peer_host ctx.peer), [])
  | some md ↦
      let agent = or_empty (first (get (bytes "user-agent") md)) in
      let real = non_empty (first (get (bytes "x-real-ip") md)) in
      (or_empty (or_else (or_else (forwarded_in md) real) (peer_host ctx.peer)), agent)
]

abbrev before_colon : Text → Option (Text × Text) → Text
before_colon addr none = addr
before_colon addr (some (host, port)) = host

-- peerIP
unfoldable pub peer_ip : Context → Text
unfolding cut_last
peer_ip ctx = elim ctx.peer [ none ↦ [] | some addr ↦ before_colon addr (cut_last b':' addr) ]

-- extractIP
unfoldable pub extract_ip : Context → Text
unfolding get forwarded peer_ip
extract_ip ctx = elim ctx.metadata [
  | none ↦ peer_ip ctx
  | some md ↦ elim (forwarded_in md) [ some ip ↦ ip | none ↦ peer_ip ctx ]
]

abbrev behind_slash : Text → Option (Text × Text) → Text
behind_slash full none = full
behind_slash full (some (path, name)) = name

-- shortMethod
unfoldable pub short_method : Text → Text
unfolding cut_last
short_method full = behind_slash full (cut_last b'/' full)
