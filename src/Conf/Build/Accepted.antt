-- ===== src/Conf/Build/Accepted.antt =====
-- What a configuration holds that is not refused.
use httppooler.Base.{
  ◌<◌, ◌≡◌, ◌⊎◌, inl, inr, refl, sym, subst, Bool, true, false, not, ◌&&◌, Option, none, some, [],
  ◌∷◌, length, if◌then◌else◌, arith,
}
use httppooler.Base.Bytes.{Bytes}
use httppooler.Conf.Parse.{Section, Parsed, is_empty, split}
use httppooler.Conf.Parse.Gives.{Gives, and_then-Gives, guard-Gives, imp-Gives, anything}
use httppooler.Conf.Words.{server_key, listen_key, queue_timeout_key}
use httppooler.Conf.Values.{Duration}
use httppooler.Conf.Values.Bounds.{IsName, IsAddress}
use httppooler.Conf.Build.{
  Conf, is_set, is_client, check_peer, has_role, check_role, Building, build_from, start, build,
  parse,
}
use httppooler.Conf.Build.Loop.{IsBuilding, build_from-IsBuilding, start-IsBuilding}
use httppooler.Conf.Build.Added.{IsConsume, IsProvide, IsSettled, AreServed}

-- What the configuration holds where a peer has a role.
pub record IsArmed (c : Conf) : Type 0 where
  pub secret : length c.secret ≡ 32
  pub server : is_client c.role ≡ true → IsAddress true c.server

pub record IsValid (c : Conf) : Type 0 where
  pub listen : IsAddress false c.listen
  pub name : IsName c.name
  pub wait : 0 < c.queue_timeout
  pub consumes : AreServed IsConsume (λ x. x.service) c.consume
  pub provides : AreServed IsProvide (λ x. x.service) c.provide
  pub armed : has_role c.role ≡ true → IsArmed c

differ : (b : Bool) → b ≡ true → ¬ (b ≡ false)
differ b e f = ground arith

not_full : (s : Bytes) → is_empty s ≡ false → ¬ (s ≡ [])
not_full [] e h = differ true refl e
not_full (b ∷ s) e h = ground arith

has_secret : (s : Bytes) → is_empty s ≡ false → (s ≡ []) ⊎ (length s ≡ 32) → length s ≡ 32
has_secret s e (inr h) = h
has_secret s e (inl h) = absurd (not_full s e h)

has_server :
    (client : Bool) (s : Bytes)
    → (client && is_empty s) ≡ false
    → (s ≡ []) ⊎ IsAddress true s
    → client ≡ true
    → IsAddress true s
has_server client s e (inr h) c = h
has_server true s e (inl h) c = absurd (not_full s e h)
has_server false s e (inl h) c = absurd (differ false c refl)

-- The checks of `checkRole` on a peer that has a role.
peer-IsArmed :
    (s : Section) (c : Conf) → IsSettled c → Gives (λ d. (d ≡ c) × IsArmed c) (check_peer s c)
unfolding check_peer
peer-IsArmed s c i = guard-Gives _ (is_empty c.secret) _ _ (λ e.
    guard-Gives _ (is_client c.role && is_empty c.server) _ _ (λ f.
      guard-Gives _ (is_client c.role && is_set s listen_key) _ _ (λ g.
        guard-Gives _ (is_client c.role && is_set s queue_timeout_key) _ _ (λ h.
          guard-Gives _ (not (is_client c.role) && is_set s server_key) _ _ (λ k. (
            refl,
            record {
              secret = has_secret c.secret e i.secret;
              server = has_server (is_client c.role) c.server f i.server;
            },
          ))))))

check_role-IsArmed :
    (o : Option Section) (c : Conf)
    → IsSettled c
    → (o ≡ none → has_role c.role ≡ false)
    → Gives (λ d. (d ≡ c) × (has_role c.role ≡ true → IsArmed c)) (check_role o c)
unfolding check_role
check_role-IsArmed none c i q = (refl, λ e. absurd (differ (has_role c.role) e (q refl)))
check_role-IsArmed (some s) c i q = role_cases (has_role c.role) refl
  where
    role_cases :
        (b : Bool)
        → b ≡ has_role c.role
        → Gives
            (λ d. (d ≡ c) × (has_role c.role ≡ true → IsArmed c))
            (if b then check_peer s c else Parsed.parsed c)
    role_cases true e = imp-Gives _ _ (check_peer s c) (peer-IsArmed s c i) (λ d r. (r.0, λ f. r.1))
    role_cases false e = (refl, λ f. absurd (differ (has_role c.role) f (sym e)))

role_checked : (b : Building) → IsBuilding b → Gives IsValid (check_role b.peer_section b.conf)
role_checked b h =
    imp-Gives _ IsValid (check_role b.peer_section b.conf)
      (check_role-IsArmed b.peer_section b.conf h.settled h.quiet)
      (λ d r. subst IsValid (sym r.0) (record {
        listen = h.settled.listen;
        name = h.settled.name;
        wait = h.settled.wait;
        consumes = h.consumes;
        provides = h.provides;
        armed = r.1;
      }))

-- A configuration that `Parse` does not refuse can be run: its names and addresses are well formed, its
-- wait is not zero, each consumed and each provided service stands once, with from 1 to 65535 jobs at a
-- time and a priority up to 65535, and a peer with a role has a secret of 32 bytes and, as a client, a
-- server to dial. It may have no role.
pub parse-IsValid :
    (parse_duration : Bytes → Option Duration) (host : Option Bytes) (text : Bytes)
    → Gives IsValid (parse parse_duration host text)
unfolding parse build
parse-IsValid parse_duration host text =
    and_then-Gives _ _ (split text) _ (anything (split text)) (λ ss u.
      and_then-Gives _ _ (build_from parse_duration ss (start host)) _
        (build_from-IsBuilding parse_duration ss (start host) (start-IsBuilding host))
        (λ b h. role_checked b h))
