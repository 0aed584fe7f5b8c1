-- ===== src/Conf/Build/Added.antt =====
-- What each section adds to a configuration.
use httppooler.Base.{
  ℕ, ◌≤◌, ◌<◌, ◌≡◌, ◌⊎◌, inl, inr, refl, sym, ap, ◌∙◌, subst, true, false, Option, none, some, List,
  [], ◌∷◌, ◌++◌, length, map, arith, All, All-append, Bool-cases,
}
use httppooler.Base.Bytes.{Bytes}
use httppooler.Base.Map.{bytes_eq, bytes_eq_iff, get, put, get-put}
use httppooler.Conf.Parse.{Value, Section}
use httppooler.Conf.Parse.Gives.{Gives, and_then-Gives, option-Gives, either-Gives, anything}
use httppooler.Base.Unique.{Among, Unique, Among-append, Unique-last}
use httppooler.Conf.Words.{
  role_key, listen_key, server_key, secret_key, name_key, queue_timeout_key, upstream_key,
  max_concurrent_key, priority_key,
}
use httppooler.Conf.Values.{Duration, role, address, secret, duration, name, text_of}
use httppooler.Conf.Values.Bounds.{
  IsName, IsAddress, name-IsName, address-IsAddress, secret_length, duration_positive,
  number_bounds,
}
use httppooler.Conf.Build.{
  Consume, Provide, Conf, value_of, known, Seen, service, peer_key, peer_keys, peer, consume,
  number_or, provide,
}

pub record IsConsume (c : Consume) : Type 0 where
  pub name : IsName c.service
  pub listen : IsAddress false c.listen

pub record IsProvide (p : Provide) : Type 0 where
  pub name : IsName p.service
  pub upstream : IsAddress true p.upstream
  pub slots : (1 ≤ p.max_concurrent) × (p.max_concurrent ≤ 65535)
  pub priority : p.priority ≤ 65535

-- The keys of the [peer] section.
pub record IsSettled (c : Conf) : Type 0 where
  pub listen : IsAddress false c.listen
  pub server : (c.server ≡ []) ⊎ IsAddress true c.server
  pub secret : (c.secret ≡ []) ⊎ (length c.secret ≡ 32)
  pub name : IsName c.name
  pub wait : 0 < c.queue_timeout

-- Sections that are sound, each about a service of its own.
pub record AreServed {A : Type 0} (P : A → Type 0) (name_of : A → Bytes) (xs : List A)
    : Type 0 where
  pub sound : All P xs
  pub unique : Unique (map name_of xs)

-- Every name is one that was seen.
abbrev pub AreSeen : List Bytes → Seen → Type 0
AreSeen names seen = (key : Bytes) → Among key names → (line : ℕ) × (get key seen ≡ some line)

-- The service of a section, which was not seen before.
pub record IsNew (s : Section) (seen seen' : Seen) : Type 0 where
  pub name : IsName s.name
  pub fresh : get s.name seen ≡ none
  pub added : seen' ≡ put s.name s.line seen

service-IsNew : (s : Section) (seen : Seen) → Gives (IsNew s seen) (service s seen)
unfolding service
service-IsNew s seen = and_then-Gives _ _ (name s.name s.line) _ (name-IsName s.name s.line) (λ n i.
    option-Gives _ (get s.name seen) _ _ (λ e. record { name = i.1; fresh = e; added = refl })
      (λ line e. tt))

added-AreSeen :
    (s : Section) (seen seen' : Seen) (names : List Bytes)
    → IsNew s seen seen'
    → AreSeen names seen
    → AreSeen (names ++ s.name ∷ []) seen'
added-AreSeen s seen seen' names i a key m = elim (Bool-cases (bytes_eq s.name key)) [
  | inl same ↦ (s.line, ap (get key) i.added ∙ get-put s.name key s.line seen ∙ rw same refl)
  | inr other ↦ elim (Among-append key names (s.name ∷ []) m) [
    | inl l ↦
        let (line, e) = a key l in
        (line, ap (get key) i.added ∙ get-put s.name key s.line seen ∙ rw other e)
    | inr (inl e) ↦ absurd (cc (other, (bytes_eq_iff s.name key).1 (sym e)))
    | inr (inr e) ↦ absurd e
  ]
]

added-Unique :
    (s : Section) (seen seen' : Seen) (names : List Bytes)
    → IsNew s seen seen'
    → AreSeen names seen
    → Unique names
    → Unique (names ++ s.name ∷ [])
added-Unique s seen seen' names i a u =
    Unique-last s.name names u (λ m. let (line, e) = a s.name m in cc (i.fresh, e))

map_last :
    {A : Type 0} (f : A → Bytes) (xs : List A) (x : A) → map f (xs ++ x ∷ []) ≡ map f xs ++ f x ∷ []
map_last f [] x = refl
map_last f (y ∷ ys) x = ap (λ t. f y ∷ t) (map_last f ys x)

-- A section is added behind those there are.
pub added-AreServed :
    {A : Type 0} (P : A → Type 0) (name_of : A → Bytes) (xs : List A) (x : A) (s : Section)
    (seen seen' : Seen)
    → P x
    → name_of x ≡ s.name
    → IsNew s seen seen'
    → AreServed P name_of xs
    → AreSeen (map name_of xs) seen
    → AreServed P name_of (xs ++ x ∷ []) × AreSeen (map name_of (xs ++ x ∷ [])) seen'
added-AreServed P name_of xs x s seen seen' p n i h a =
    let e : map name_of (xs ++ x ∷ []) ≡ map name_of xs ++ s.name ∷ [] =
      map_last name_of xs x ∙ ap (λ t. map name_of xs ++ t ∷ []) n in
    (
      record {
        sound = All-append P xs (x ∷ []) h.sound (p, tt);
        unique = subst Unique (sym e) (added-Unique s seen seen' (map name_of xs) i a h.unique);
      },
      subst (λ t. AreSeen t seen') (sym e) (added-AreSeen s seen seen' (map name_of xs) i a),
    )

-- The [peer] section leaves the others as they are.
abbrev pub Kept : List Consume → List Provide → Conf → Type 0
Kept cs ps c = IsSettled c × ((c.consume ≡ cs) × (c.provide ≡ ps))

peer_key-Kept :
    (parse_duration : Bytes → Option Duration) (key : Bytes) (v : Value) (cs : List Consume)
    (ps : List Provide) (c : Conf)
    → Kept cs ps c
    → Gives (Kept cs ps) (peer_key parse_duration key v c)
unfolding peer_key text_of
peer_key-Kept parse_duration key v cs ps c (i, k) =
    either-Gives _ (bytes_eq key role_key) _ _
      (and_then-Gives _ _ (role v) _ (anything (role v)) (λ r u. (
        record {
          listen = i.listen;
          server = i.server;
          secret = i.secret;
          name = i.name;
          wait = i.wait;
        },
        k,
      )))
      (λ e0.
        either-Gives _ (bytes_eq key listen_key) _ _
          (and_then-Gives _ _ (address v false) _ (address-IsAddress v false) (λ a h. (
            record {
              listen = h;
              server = i.server;
              secret = i.secret;
              name = i.name;
              wait = i.wait;
            },
            k,
          )))
          (λ e1.
            either-Gives _ (bytes_eq key server_key) _ _
              (and_then-Gives _ _ (address v true) _ (address-IsAddress v true) (λ a h. (
                record {
                  listen = i.listen;
                  server = inr h;
                  secret = i.secret;
                  name = i.name;
                  wait = i.wait;
                },
                k,
              )))
              (λ e2.
                either-Gives _ (bytes_eq key secret_key) _ _
                  (and_then-Gives _ _ (secret v) _ (secret_length v) (λ a h. (
                    record {
                      listen = i.listen;
                      server = i.server;
                      secret = inr h;
                      name = i.name;
                      wait = i.wait;
                    },
                    k,
                  )))
                  (λ e3.
                    either-Gives _ (bytes_eq key name_key) _ _
                      (and_then-Gives _ _ (name v.text v.line) _ (name-IsName v.text v.line) (λ a h.
                        (
                          record {
                            listen = i.listen;
                            server = i.server;
                            secret = i.secret;
                            name = subst IsName (sym h.0) h.1;
                            wait = i.wait;
                          },
                          k,
                        )))
                      (λ e4.
                        either-Gives _ (bytes_eq key queue_timeout_key) _ _
                          (and_then-Gives _ _ (duration parse_duration v) _
                            (duration_positive parse_duration v)
                            (λ a h. (
                              record {
                                listen = i.listen;
                                server = i.server;
                                secret = i.secret;
                                name = i.name;
                                wait = h;
                              },
                              k,
                            )))
                          (λ e5. (i, k)))))))

peer_keys-Kept :
    (parse_duration : Bytes → Option Duration) (s : Section) (keys : List Bytes) (cs : List Consume)
    (ps : List Provide) (c : Conf)
    → Kept cs ps c
    → Gives (Kept cs ps) (peer_keys parse_duration s keys c)
unfolding peer_keys
peer_keys-Kept parse_duration s [] cs ps c i = i
peer_keys-Kept parse_duration s (key ∷ keys) cs ps c i =
    and_then-Gives _ _ (peer_key parse_duration key (value_of (get key s.keys)) c) _
      (peer_key-Kept parse_duration key (value_of (get key s.keys)) cs ps c i)
      (λ d j. peer_keys-Kept parse_duration s keys cs ps d j)

pub peer-Kept :
    (parse_duration : Bytes → Option Duration) (s : Section) (c : Conf)
    → IsSettled c
    → Gives (Kept c.consume c.provide) (peer parse_duration s c)
unfolding peer
peer-Kept parse_duration s c i =
    and_then-Gives _ _ (known s _ s.order) _ (anything (known s _ s.order))
      (λ u v. peer_keys-Kept parse_duration s s.order c.consume c.provide c (i, (refl, refl)))

-- What a [consume] section adds to the configuration.
pub record HasConsumed (s : Section) (seen : Seen) (c : Conf) (r : Seen × Conf) : Type 0 where
  pub added : Consume
  pub fresh : IsNew s seen r.0
  pub sound : IsConsume added
  pub service : added.service ≡ s.name
  pub conf : r.1 ≡ record c { consume = c.consume ++ added ∷ [] }

pub consume-HasConsumed :
    (s : Section) (seen : Seen) (c : Conf) → Gives (HasConsumed s seen c) (consume s seen c)
unfolding consume
consume-HasConsumed s seen c =
    and_then-Gives _ _ (known s _ s.order) _ (anything (known s _ s.order)) (λ u w.
      and_then-Gives _ _ (service s seen) _ (service-IsNew s seen) (λ seen' n.
        option-Gives _ (get listen_key s.keys) _ _ (λ e. tt)
          (λ v e. and_then-Gives _ _ (address v false) _ (address-IsAddress v false) (λ a h.
            record {
              added = record { service = s.name; listen = a };
              fresh = n;
              sound = record { name = n.name; listen = h };
              service = refl;
              conf = refl;
            }))))

number_or_bounds :
    (o : Option Value) (low default : ℕ)
    → low ≤ default
    → default ≤ 65535
    → Gives (λ n. (low ≤ n) × (n ≤ 65535)) (number_or o low default)
unfolding number_or
number_or_bounds none low default l h = (l, h)
number_or_bounds (some v) low default l h = number_bounds v low

-- What a [provide] section adds.
pub record HasProvided (s : Section) (seen : Seen) (c : Conf) (r : Seen × Conf) : Type 0 where
  pub added : Provide
  pub fresh : IsNew s seen r.0
  pub sound : IsProvide added
  pub service : added.service ≡ s.name
  pub conf : r.1 ≡ record c { provide = c.provide ++ added ∷ [] }

pub provide-HasProvided :
    (s : Section) (seen : Seen) (c : Conf) → Gives (HasProvided s seen c) (provide s seen c)
unfolding provide
provide-HasProvided s seen c =
    and_then-Gives _ _ (known s _ s.order) _ (anything (known s _ s.order)) (λ u w.
      and_then-Gives _ _ (service s seen) _ (service-IsNew s seen) (λ seen' n.
        option-Gives _ (get upstream_key s.keys) _ _ (λ e. tt)
          (λ v e. and_then-Gives _ _ (address v true) _ (address-IsAddress v true) (λ a h.
            and_then-Gives _ _ (number_or (get max_concurrent_key s.keys) 1 1) _
              (number_or_bounds (get max_concurrent_key s.keys) 1 1 (omega arith) (omega arith))
              (λ m b.
                and_then-Gives _ _ (number_or (get priority_key s.keys) 0 100) _
                  (number_or_bounds (get priority_key s.keys) 0 100 (omega arith) (omega arith))
                  (λ q d. record {
                    added = record {
                      service = s.name;
                      upstream = a;
                      max_concurrent = m;
                      priority = q;
                    };
                    fresh = n;
                    sound = record { name = n.name; upstream = h; slots = b; priority = d.1 };
                    service = refl;
                    conf = refl;
                  }))))))
