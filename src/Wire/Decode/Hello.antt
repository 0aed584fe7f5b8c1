-- ===== src/Wire/Decode/Hello.antt =====
-- `hello` reads exactly the fields of a HELLO, once, on the server's side.
use httppooler.Base.{
  ℕ, zero, suc, ◌≤◌, ◌≡◌, ◌↔◌, refl, sym, ap, ◌∙◌, true, false, Option, none, some, List, [], ◌∷◌,
  ◌++◌, length, arith,
}
use httppooler.Base.Bytes.{Bytes, AreBytes, to_le}
use httppooler.Wire.Message.{Role, ProviderInfo, Message}
use httppooler.Wire.Error.{What}
use httppooler.Wire.Layout.{
  str8_layout, provider_layout, each_layout, fields_layout, IsValid, Fits, IsProvider, ProviderFits,
}
use httppooler.Wire.Decoder.{Decoder, Decoding, pure, ◌>>=◌, fail, name8, u8}
use httppooler.Wire.Decoder.Reads.{
  Reads, Then, Map, Reads-Map, Reads-bind, Reads-iff, pure-Reads, checked-Reads,
}
use httppooler.Wire.Decoder.Rounds.{Item, Rounds, no-Rounds, one_round}
use httppooler.Wire.Decoder.Fields.{
  Number, Ranged, Name8, name8-Reads, slots-Reads, u8-Reads, u16-Reads,
}
use httppooler.Wire.Decode.{
  provider, each_provider, greeted, hello_of, hello_fields, is_server, hello,
}

abbrev OneProvider : ProviderInfo → Bytes → Type 0
OneProvider = Item IsProvider ProviderFits provider_layout

abbrev ProviderParts : ProviderInfo → Bytes → Type 0
ProviderParts = Then Name8 λ s.
    Then (Ranged (λ n. 1 ≤ n) 2)
      λ c. Map (Number 2) λ r. record { service = s; max_concurrent = c; priority = r }

provider_parts : (p : ProviderInfo) (used : Bytes) → ProviderParts p used ↔ OneProvider p used
provider_parts p used = (
  (λ (s, a, b, (vs, fs, ea), (c, a', b', (vc, (fc, ec)), (r, (fr, er), ep), eb), e).
      rw ep ((vs, vc), (fs, (omega arith, omega arith)), rw (e, ea, eb, ec, er))),
  λ ((vs, vc), (fs, (fc, fr)), e). (
    p.service,
    str8_layout p.service,
    _,
    (vs, fs, refl),
    (
      p.max_concurrent,
      to_le 2 p.max_concurrent,
      to_le 2 p.priority,
      (vc, (omega arith, refl)),
      (p.priority, (omega arith, refl), refl),
      refl,
    ),
    e,
  ),
)

provider-Reads : Reads OneProvider provider
unfolding provider
provider-Reads = Reads-iff provider_parts (
    Reads-bind (name8-Reads What.service) λ s.
      Reads-bind slots-Reads
        λ c. Reads-Map (λ r. record { service = s; max_concurrent = c; priority = r }) u16-Reads)

abbrev Providers : Type 0
Providers = Option (List ProviderInfo)

abbrev ProviderRounds : ℕ → List ProviderInfo → Providers → Bytes → Type 0
ProviderRounds = Rounds IsProvider ProviderFits provider_layout some

each_provider-Reads :
    (n : ℕ) (acc : List ProviderInfo) → Reads (ProviderRounds n acc) (each_provider n acc)
unfolding each_provider
each_provider-Reads zero acc =
    Reads-iff (no-Rounds IsProvider ProviderFits provider_layout some acc) (pure-Reads (some acc))
each_provider-Reads (suc n) acc =
    Reads-iff (one_round IsProvider ProviderFits provider_layout some n acc)
      (Reads-bind provider-Reads (λ p. checked-Reads none (each_provider-Reads n (acc ++ p ∷ []))))

-- What a HELLO announces, read without the early return for a count of zero.
announced : Decoding (Bytes × Providers)
announced = do name ← name8 What.peer_name; count ← u8; ps ← each_provider count []; pure (name, ps)

abbrev Announces : Bytes × Providers → Bytes → Type 0
Announces r used =
    (ps : List ProviderInfo) × (r.1 ≡ some ps)
    × IsValid (Message.hello r.0 ps)
    × Fits (Message.hello r.0 ps)
    × (used ≡ fields_layout (Message.hello r.0 ps))

abbrev AnnounceParts : Bytes × Providers → Bytes → Type 0
AnnounceParts = Then Name8 λ name. Then (Number 1) λ n. Map (ProviderRounds n []) λ ps. (name, ps)

announce_parts : (r : Bytes × Providers) (used : Bytes) → AnnounceParts r used ↔ Announces r used
announce_parts r used = (
  (λ (name, a, b, (vn, fn, ea), (n, a', b', (ln, en), (o, (ps, eo, l, v, f, ep), er), eb), e).
      rw er (ps, eo, (vn, (omega arith, v)), (fn, f), rw (e, ea, eb, en, ep, l))),
  λ (ps, eo, (vn, (l, v)), (fn, f), e). (
    r.0,
    str8_layout r.0,
    _,
    (vn, fn, refl),
    (
      length ps,
      to_le 1 (length ps),
      each_layout provider_layout ps,
      (omega arith, refl),
      (r.1, (ps, eo, refl, v, f, refl), refl),
      refl,
    ),
    e,
  ),
)

announced-Reads : Reads Announces announced
unfolding announced
announced-Reads = Reads-iff announce_parts (
    Reads-bind (name8-Reads What.peer_name)
      λ name. Reads-bind u8-Reads λ n. Reads-Map (λ ps. (name, ps)) (each_provider-Reads n []))

module _ (name : Bytes) where
  -- The early return for a count of zero gives what the loop would.
  hello_of_loop :
      (count : ℕ) (d : Decoder)
      → d.error ≡ none
      → hello_of name count d ≡ (each_provider count [] >>= greeted name) d
  unfolding hello_of
  hello_of_loop zero d clear = unfold each_provider in ground arith
  hello_of_loop (suc n) d clear = ground arith

  greeted-error : (ps : Providers) (d : Decoder) → (greeted name ps d).1.error ≡ d.error
  unfolding greeted
  greeted-error none d = refl
  greeted-error (some ps) d = refl

  hello_of-sticky :
      (count : ℕ) (d : Decoder) → (hello_of name count d).1.error ≡ none → d.error ≡ none
  unfolding hello_of
  hello_of-sticky count d h = ground arith

hello_fields-announced :
    (d : Decoder)
    → (announced d).1.error ≡ none
    → hello_fields d ≡ greeted (announced d).0.0 (announced d).0.1 (announced d).1
unfolding announced hello_fields
hello_fields-announced d h =
    let first = name8 What.peer_name d in
    let second = u8 first.1 in
    hello_of_loop first.0 second.0 second.1 ((each_provider-Reads second.0 []).sticky second.1 h)

announced_clear : (d : Decoder) → (hello_fields d).1.error ≡ none → (announced d).1.error ≡ none
unfolding announced hello_fields
announced_clear d h =
    let first = name8 What.peer_name d in
    let second = u8 first.1 in
    let clear = hello_of-sticky first.0 second.0 second.1 h in
    let loop = each_provider second.0 [] second.1 in
    sym (greeted-error first.0 loop.0 loop.1)
    ∙ ap (λ (r : Option Message × Decoder). r.1.error)
        (sym (hello_of_loop first.0 second.0 second.1 clear))
    ∙ h

-- A server that has had no HELLO reads one off its layout, and remembers that it has.
pub hello_accepts :
    (d : Decoder) (name : Bytes) (ps : List ProviderInfo) (rest : Bytes)
    → d.error ≡ none
    → d.role ≡ Role.server
    → d.got_hello ≡ false
    → IsValid (Message.hello name ps)
    → Fits (Message.hello name ps)
    → d.input ≡ fields_layout (Message.hello name ps) ++ rest
    → hello d ≡ (some (Message.hello name ps), record d { input = rest; got_hello = true })
unfolding hello is_server greeted
hello_accepts d name ps rest clear role fresh v f i =
    let read : announced d ≡ ((name, some ps), record d { input = rest }) =
      announced-Reads.accepts d (name, some ps) _ rest clear (ps, refl, v, f, refl) i in
    ground (arith, read, hello_fields-announced d)

-- What a HELLO that was read without an error was.
pub record HelloRead (d : Decoder) : Type 0 where
  pub name : Bytes
  pub providers : List ProviderInfo
  pub rest : Bytes
  pub valid : IsValid (Message.hello name providers)
  pub fits : Fits (Message.hello name providers)
  pub input : d.input ≡ fields_layout (Message.hello name providers) ++ rest
  pub clear : d.error ≡ none
  pub server : d.role ≡ Role.server
  pub fresh : d.got_hello ≡ false
  pub result :
      hello d ≡ (some (Message.hello name providers), record d { input = rest; got_hello = true })

hello_guards :
    (d : Decoder)
    → (hello d).1.error ≡ none
    → (d.role ≡ Role.server) × (d.got_hello ≡ false) × ((hello_fields d).1.error ≡ none)
unfolding hello is_server fail
hello_guards d h = (ground arith, ground arith, ground arith)

pub hello_sound : (d : Decoder) → AreBytes d.input → (hello d).1.error ≡ none → HelloRead d
hello_sound d b h =
    let (role, fresh, inner) = hello_guards d h in
    let ends_clear = announced_clear d inner in
    let clear = announced-Reads.sticky d ends_clear in
    let c = announced-Reads.sound d b ends_clear in
    let (ps, eps, v, f, eu) = c.spec in
    let input : d.input ≡ fields_layout (Message.hello c.value.0 ps) ++ c.rest =
      c.input ∙ ap (λ u. u ++ c.rest) eu in
    record {
      name = c.value.0;
      providers = ps;
      rest = c.rest;
      valid = v;
      fits = f;
      input = input;
      clear = clear;
      server = role;
      fresh = fresh;
      result = hello_accepts d c.value.0 ps c.rest clear role fresh v f input;
    }
