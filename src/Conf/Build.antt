-- ===== src/Conf/Build.antt =====
-- build.go: sections into a configuration. What os.Hostname gives and time.ParseDuration are parameters.
pub mod Added
pub mod Loop
pub mod Accepted
use httppooler.Base.{
  ℕ, Bool, true, false, not, ◌&&◌, ◌||◌, Option, none, some, List, [], ◌∷◌, ◌++◌, length, leb,
  if◌then◌else◌,
}
use httppooler.Base.Bytes.{Bytes}
use httppooler.Base.Map.{bytes_eq, get, put}
use httppooler.Base.Utf8.{valid_utf8}
use httppooler.Conf.Parse.{
  Value, Section, Refusal, Parsed, refuse, and_then, is_empty, peer_kind, consume_kind,
  provide_kind, split,
}
use httppooler.Conf.Words.{
  role_key, listen_key, server_key, secret_key, name_key, queue_timeout_key, upstream_key,
  max_concurrent_key, priority_key, default_listen, default_name, default_queue_timeout,
  default_concurrent, default_priority,
}
use httppooler.Conf.Values.{Role, Duration, role, address, secret, duration, number, name, text_of}

pub record Consume : Type 0 where
  pub service : Bytes
  pub listen : Bytes

pub record Provide : Type 0 where
  pub service : Bytes
  pub upstream : Bytes
  pub max_concurrent : ℕ
  pub priority : ℕ

pub record Conf : Type 0 where
  pub role : Role
  pub listen : Bytes
  pub server : Bytes
  pub secret : Bytes
  pub name : Bytes
  pub queue_timeout : ℕ
  pub consume : List Consume
  pub provide : List Provide

unfoldable pub hostname : Option Bytes → Bytes
hostname none = default_name
hostname (some h) =
    if not (is_empty h) && (leb (length h) 255 && valid_utf8 h) then h else default_name

unfoldable pub among : Bytes → List Bytes → Bool
among key [] = false
among key (a ∷ others) = let rest = among key others in bytes_eq key a || rest

-- The value of a key of the order, which the map has.
abbrev pub value_of : Option Value → Value
value_of none = record { text = []; line = 0 }
value_of (some v) = v

-- The loop of `known`.
unfoldable pub known : Section → List Bytes → List Bytes → Parsed Unit
known s allowed [] = Parsed.parsed tt
known s allowed (key ∷ keys) =
    let rest = known s allowed keys in
    if among key allowed
    then rest
    else refuse (value_of (get key s.keys)).line (Refusal.unknown_key key)

-- The lines of the sections about each service, so far.
abbrev pub Seen : Type 0
Seen = List (Bytes × ℕ)

unfoldable pub service : Section → Seen → Parsed Seen
service s seen = and_then (name s.name s.line) (λ n. elim (get s.name seen) [
  | some line ↦ refuse s.line (Refusal.service_twice line)
  | none ↦ Parsed.parsed (put s.name s.line seen)
])

-- One key of the [peer] section. `known` has refused every other key.
unfoldable pub peer_key : (Bytes → Option Duration) → Bytes → Value → Conf → Parsed Conf
peer_key parse_duration key v c =
    if bytes_eq key role_key
    then and_then (role v) (λ r. Parsed.parsed (record c { role = r }))
    else if bytes_eq key listen_key
    then and_then (address v false) (λ a. Parsed.parsed (record c { listen = a }))
    else if bytes_eq key server_key
    then and_then (address v true) (λ a. Parsed.parsed (record c { server = a }))
    else if bytes_eq key secret_key
    then and_then (secret v) (λ b. Parsed.parsed (record c { secret = b }))
    else if bytes_eq key name_key
    then and_then (text_of v) (λ n. Parsed.parsed (record c { name = n }))
    else if bytes_eq key queue_timeout_key
    then and_then (duration parse_duration v) (λ d. Parsed.parsed (record c { queue_timeout = d }))
    else Parsed.parsed c

-- The loop of `peer`.
unfoldable pub peer_keys : (Bytes → Option Duration) → Section → List Bytes → Conf → Parsed Conf
peer_keys parse_duration s [] c = Parsed.parsed c
peer_keys parse_duration s (key ∷ keys) c =
    and_then (peer_key parse_duration key (value_of (get key s.keys)) c)
      (λ c'. peer_keys parse_duration s keys c')

unfoldable pub peer : (Bytes → Option Duration) → Section → Conf → Parsed Conf
peer parse_duration s c =
    and_then
      (known s (role_key ∷ listen_key ∷ server_key ∷ secret_key ∷ name_key ∷ queue_timeout_key ∷ [])
        s.order)
      (λ u. peer_keys parse_duration s s.order c)

unfoldable pub consume : Section → Seen → Conf → Parsed (Seen × Conf)
consume s seen c = and_then (known s (listen_key ∷ []) s.order) (λ u.
    and_then (service s seen) (λ seen'. elim (get listen_key s.keys) [
      | none ↦ refuse s.line Refusal.no_listen
      | some v ↦ and_then (address v false) (λ listen. Parsed.parsed (
        seen',
        record c { consume = c.consume ++ record { service = s.name; listen = listen } ∷ [] },
      ))
    ]))

-- A number that is left out has its default.
unfoldable pub number_or : Option Value → ℕ → ℕ → Parsed ℕ
number_or none low default = Parsed.parsed default
number_or (some v) low default = number v low

unfoldable pub provide : Section → Seen → Conf → Parsed (Seen × Conf)
provide s seen c =
    and_then (known s (upstream_key ∷ max_concurrent_key ∷ priority_key ∷ []) s.order) (λ u.
      and_then (service s seen) (λ seen'. elim (get upstream_key s.keys) [
        | none ↦ refuse s.line Refusal.no_upstream
        | some v ↦ and_then (address v true) (λ upstream.
            and_then (number_or (get max_concurrent_key s.keys) 1 default_concurrent) (λ slots.
              and_then (number_or (get priority_key s.keys) 0 default_priority) (λ priority.
                Parsed.parsed (
                  seen',
                  record c {
                    provide =
                        c.provide
                        ++ record {
                          service = s.name;
                          upstream = upstream;
                          max_concurrent = slots;
                          priority = priority;
                        }
                          ∷ [];
                  },
                ))))
      ]))

-- The line of a key of the [peer] section, or of the section.
abbrev pub line_of : Section → Bytes → ℕ
line_of s key = elim (get key s.keys) [ none ↦ s.line | some v ↦ v.line ]

abbrev pub is_set : Section → Bytes → Bool
is_set s key = elim (get key s.keys) [ none ↦ false | some v ↦ true ]

abbrev pub is_client : Role → Bool
is_client Role.client = true
is_client r = false

-- `checkRole` on the [peer] section that set the role.
unfoldable pub check_peer : Section → Conf → Parsed Conf
check_peer s c =
    if is_empty c.secret
    then refuse (line_of s secret_key) Refusal.no_secret
    else if is_client c.role && is_empty c.server
    then refuse (line_of s server_key) Refusal.no_server
    else if is_client c.role && is_set s listen_key
    then refuse (line_of s listen_key) Refusal.server_key
    else if is_client c.role && is_set s queue_timeout_key
    then refuse (line_of s queue_timeout_key) Refusal.server_key
    else if not (is_client c.role) && is_set s server_key
    then refuse (line_of s server_key) Refusal.client_key
    else Parsed.parsed c

abbrev pub has_role : Role → Bool
has_role Role.no_role = false
has_role r = true

-- `checkRole`. Only a [peer] section sets a role, so that one is there wherever it is looked at.
unfoldable pub check_role : Option Section → Conf → Parsed Conf
check_role none c = Parsed.parsed c
check_role (some s) c = if has_role c.role then check_peer s c else Parsed.parsed c

-- What the loop of `build` keeps.
pub record Building : Type 0 where
  pub conf : Conf
  pub peer_section : Option Section
  pub consumed : Seen
  pub provided : Seen

unfoldable pub build_section : (Bytes → Option Duration) → Section → Building → Parsed Building
build_section parse_duration s b =
    if bytes_eq s.kind peer_kind
    then elim b.peer_section [
      | some old ↦ refuse s.line (Refusal.peer_twice old.line)
      | none ↦
          and_then (peer parse_duration s b.conf)
            (λ c. Parsed.parsed (record b { conf = c; peer_section = some s }))
    ]
    else if bytes_eq s.kind consume_kind
    then and_then (consume s b.consumed b.conf)
        (λ r. Parsed.parsed (record b { conf = r.1; consumed = r.0 }))
    else if bytes_eq s.kind provide_kind
    then and_then (provide s b.provided b.conf)
        (λ r. Parsed.parsed (record b { conf = r.1; provided = r.0 }))
    else Parsed.parsed b

-- The loop of `build`.
unfoldable pub build_from : (Bytes → Option Duration) → List Section → Building → Parsed Building
build_from parse_duration [] b = Parsed.parsed b
build_from parse_duration (s ∷ ss) b =
    and_then (build_section parse_duration s b) (λ b'. build_from parse_duration ss b')

unfoldable pub start : Option Bytes → Building
start host = record {
  conf = record {
    role = Role.no_role;
    listen = default_listen;
    server = [];
    secret = [];
    name = hostname host;
    queue_timeout = default_queue_timeout;
    consume = [];
    provide = [];
  };
  peer_section = none;
  consumed = [];
  provided = [];
}

unfoldable pub build : (Bytes → Option Duration) → Option Bytes → List Section → Parsed Conf
build parse_duration host ss =
    and_then (build_from parse_duration ss (start host)) (λ b. check_role b.peer_section b.conf)

-- `Parse`, of the text that was read.
unfoldable pub parse : (Bytes → Option Duration) → Option Bytes → Bytes → Parsed Conf
parse parse_duration host text = and_then (split text) (λ ss. build parse_duration host ss)
