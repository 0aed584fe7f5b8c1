-- ===== src/Conf/Build/Loop.antt =====
-- What the loop of `build` keeps, section by section.
use httppooler.Base.{
  ◌≡◌, inl, refl, sym, subst, Bool, true, false, not, ◌&&◌, Option, none, some, List, [], ◌∷◌,
  length, map, if◌then◌else◌, arith, leb,
}
use httppooler.Base.Bytes.{Bytes}
use httppooler.Base.Map.{bytes_eq}
use httppooler.Base.Utf8.{valid_utf8}
use httppooler.Conf.Parse.{Section, is_empty, peer_kind, consume_kind, provide_kind}
use httppooler.Conf.Parse.Gives.{Gives, and_then-Gives, option-Gives, either-Gives}
use httppooler.Conf.Words.{default_name}
use httppooler.Conf.Values.{Role, Duration, split_host_port, atoi, is_port}
use httppooler.Conf.Values.Bounds.{IsName, leb_le}
use httppooler.Conf.Build.{
  Conf, hostname, Seen, peer, consume, provide, has_role, Building, build_section, build_from,
  start,
}
use httppooler.Conf.Build.Added.{
  IsConsume, IsProvide, IsSettled, AreServed, AreSeen, HasConsumed, HasProvided, Kept,
  added-AreServed, peer-Kept, consume-HasConsumed, provide-HasProvided,
}

-- What the loop of `build` keeps.
pub record IsBuilding (b : Building) : Type 0 where
  pub settled : IsSettled b.conf
  pub consumes : AreServed IsConsume (λ x. x.service) b.conf.consume
  pub provides : AreServed IsProvide (λ x. x.service) b.conf.provide
  pub consumed : AreSeen (map (λ x. x.service) b.conf.consume) b.consumed
  pub provided : AreSeen (map (λ x. x.service) b.conf.provide) b.provided
  pub quiet : b.peer_section ≡ none → has_role b.conf.role ≡ false

no_some : {A : Type 0} (a : A) → ¬ (some a ≡ none)
no_some a e = ground arith

set_peer-IsBuilding :
    (b : Building) (s : Section) (c : Conf)
    → Kept b.conf.consume b.conf.provide c
    → IsBuilding b
    → IsBuilding (record b { conf = c; peer_section = some s })
set_peer-IsBuilding b s c (i, (ec, ep)) h = record {
  settled = i;
  consumes = subst (AreServed IsConsume (λ x. x.service)) (sym ec) h.consumes;
  provides = subst (AreServed IsProvide (λ x. x.service)) (sym ep) h.provides;
  consumed = subst (λ t. AreSeen (map (λ x. x.service) t) b.consumed) (sym ec) h.consumed;
  provided = subst (λ t. AreSeen (map (λ x. x.service) t) b.provided) (sym ep) h.provided;
  quiet = λ e. absurd (no_some s e);
}

set_consume-IsBuilding :
    (b : Building) (s : Section) (r : Seen × Conf)
    → HasConsumed s b.consumed b.conf r
    → IsBuilding b
    → IsBuilding (record b { conf = r.1; consumed = r.0 })
set_consume-IsBuilding b s (seen, c) n h =
    let (served, seen') =
      added-AreServed IsConsume (λ x. x.service) b.conf.consume n.added s b.consumed seen n.sound
        n.service n.fresh h.consumes h.consumed in
    let i = h.settled in
    subst (λ c'. IsBuilding (record b { conf = c'; consumed = seen })) (sym n.conf)
      (record {
        settled = record {
          listen = i.listen;
          server = i.server;
          secret = i.secret;
          name = i.name;
          wait = i.wait;
        };
        consumes = served;
        provides = h.provides;
        consumed = seen';
        provided = h.provided;
        quiet = h.quiet;
      })

set_provide-IsBuilding :
    (b : Building) (s : Section) (r : Seen × Conf)
    → HasProvided s b.provided b.conf r
    → IsBuilding b
    → IsBuilding (record b { conf = r.1; provided = r.0 })
set_provide-IsBuilding b s (seen, c) n h =
    let (served, seen') =
      added-AreServed IsProvide (λ x. x.service) b.conf.provide n.added s b.provided seen n.sound
        n.service n.fresh h.provides h.provided in
    let i = h.settled in
    subst (λ c'. IsBuilding (record b { conf = c'; provided = seen })) (sym n.conf)
      (record {
        settled = record {
          listen = i.listen;
          server = i.server;
          secret = i.secret;
          name = i.name;
          wait = i.wait;
        };
        consumes = h.consumes;
        provides = served;
        consumed = h.consumed;
        provided = seen';
        quiet = h.quiet;
      })

build_section-IsBuilding :
    (parse_duration : Bytes → Option Duration) (s : Section) (b : Building)
    → IsBuilding b
    → Gives IsBuilding (build_section parse_duration s b)
unfolding build_section
build_section-IsBuilding parse_duration s b h =
    either-Gives _ (bytes_eq s.kind peer_kind) _ _
      (option-Gives _ b.peer_section _ _
        (λ e.
          and_then-Gives _ _ (peer parse_duration s b.conf) _
            (peer-Kept parse_duration s b.conf h.settled) (λ c k. set_peer-IsBuilding b s c k h))
        (λ old e. tt))
      (λ p.
        either-Gives _ (bytes_eq s.kind consume_kind) _ _
          (and_then-Gives _ _ (consume s b.consumed b.conf) _
            (consume-HasConsumed s b.consumed b.conf) (λ r n. set_consume-IsBuilding b s r n h))
          (λ q.
            either-Gives _ (bytes_eq s.kind provide_kind) _ _
              (and_then-Gives _ _ (provide s b.provided b.conf) _
                (provide-HasProvided s b.provided b.conf) (λ r n. set_provide-IsBuilding b s r n h))
              (λ z. h)))

pub build_from-IsBuilding :
    (parse_duration : Bytes → Option Duration) (ss : List Section) (b : Building)
    → IsBuilding b
    → Gives IsBuilding (build_from parse_duration ss b)
unfolding build_from
build_from-IsBuilding parse_duration [] b h = h
build_from-IsBuilding parse_duration (s ∷ ss) b h =
    and_then-Gives _ _ (build_section parse_duration s b) _
      (build_section-IsBuilding parse_duration s b h)
      (λ b' h'. build_from-IsBuilding parse_duration ss b' h')

both : (a b : Bool) → true ≡ (a && b) → (a ≡ true) × (b ≡ true)
both true b e = (refl, sym e)
both false b e = absurd (ground arith)

is_false : (b : Bool) → not b ≡ true → b ≡ false
is_false true e = absurd (ground arith)
is_false false e = refl

host_right :
    (h : Bytes) (b : Bool)
    → b ≡ (not (is_empty h) && (leb (length h) 255 && valid_utf8 h))
    → IsName (if b then h else default_name)
unfolding valid_utf8
host_right h true e =
    let (full, rest) = both (not (is_empty h)) _ e in
    let (short, utf8) = both (leb (length h) 255) (valid_utf8 h) (sym rest) in
    record { full = is_false _ full; short = leb_le (length h) 255 short; utf8 = utf8 }
host_right h false e = record { full = refl; short = omega arith; utf8 = refl }

hostname-IsName : (host : Option Bytes) → IsName (hostname host)
unfolding hostname
hostname-IsName none = host_right [] false refl
hostname-IsName (some h) = host_right h _ refl

pub start-IsBuilding : (host : Option Bytes) → IsBuilding (start host)
unfolding start split_host_port atoi is_port httppooler.Conf.Values.split_plain
    httppooler.Conf.Values.cut_last httppooler.Conf.Text.cut httppooler.Conf.Text.reverse_onto
    httppooler.Conf.Text.has httppooler.Conf.Values.decimal httppooler.Conf.Values.decimal_from
start-IsBuilding host = record {
  settled = record {
    listen = record { parts = _; split = refl; port = refl; host = refl };
    server = inl refl;
    secret = inl refl;
    name = hostname-IsName host;
    wait = omega arith;
  };
  consumes = record { sound = tt; unique = tt };
  provides = record { sound = tt; unique = tt };
  consumed = λ k a. absurd a;
  provided = λ k a. absurd a;
  quiet = λ e. refl;
}
