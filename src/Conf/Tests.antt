-- ===== src/Conf/Tests.antt =====
-- Runs of the configuration.
use httppooler.Base.{◌≡◌, ◌≤◌, refl, Option, none, [], ◌∷◌, All}
use httppooler.Base.Bytes.{Bytes}
use httppooler.Base.Map.{get, put, bytes_eq}
use httppooler.Base.Utf8.{valid_utf8}
use httppooler.Conf.Text.{lines, trim_space, reverse_onto, trim_back, trim_left, cut, has}
use httppooler.Conf.Words.{default_listen}
use httppooler.Conf.Parse.{
  ConfError, Refusal, Parsed, split, split_from, line_of, uncomment, header, at_blank, section_name,
  unquote, new_section, is_word, set_key, setting, section_kinds,
}
use httppooler.Conf.Parse.Gives.{Gives}
use httppooler.Conf.Parse.Sections.{IsSection, split-IsSection}
use httppooler.Conf.Parse.Lines.{split_line}
use httppooler.Conf.Values.{
  Role, Duration, address, atoi, cut_last, decimal, decimal_from, is_port, name, split_host_port,
  split_plain, text_of,
}
use httppooler.Conf.Build.{
  Conf, parse, among, build, build_from, build_section, check_role, consume, hostname, known, peer,
  peer_key, peer_keys, service, start,
}
use httppooler.Conf.Build.Accepted.{IsValid, parse-IsValid}

-- A service to consume, and a name.
abbrev text : Bytes
text =
    b'[' ∷ b'c' ∷ b'o' ∷ b'n' ∷ b's' ∷ b'u' ∷ b'm' ∷ b'e' ∷ b' ' ∷ b'"' ∷ b'a' ∷ b'"' ∷ b']' ∷ b'\n'
    ∷ b'l' ∷ b'i' ∷ b's' ∷ b't' ∷ b'e' ∷ b'n' ∷ b' ' ∷ b'=' ∷ b' ' ∷ b':' ∷ b'1' ∷ b'\n' ∷ b'['
    ∷ b'p' ∷ b'e' ∷ b'e' ∷ b'r' ∷ b']' ∷ b'\n' ∷ b'n' ∷ b'a' ∷ b'm' ∷ b'e' ∷ b' ' ∷ b'=' ∷ b' '
    ∷ b'z' ∷ []

-- A comment, and a line without an equals sign.
abbrev refused_text : Bytes
refused_text = b'#' ∷ b' ' ∷ b'x' ∷ b'\n' ∷ b'y' ∷ []

abbrev no_equals : ConfError
no_equals = record { line = 2; why = Refusal.no_equals }

abbrev no_duration : Bytes → Option Duration
no_duration t = none

abbrev conf : Conf
conf = record {
  role = Role.no_role;
  listen = default_listen;
  server = [];
  secret = [];
  name = b'z' ∷ [];
  queue_timeout = 600000000000;
  consume = record { service = b'a' ∷ []; listen = b':' ∷ b'1' ∷ [] } ∷ [];
  provide = [];
}

text_conf : parse no_duration none text ≡ Parsed.parsed conf
unfolding get put among bytes_eq build build_from build_section check_role consume hostname known
    peer peer_key peer_keys service start is_word set_key setting section_kinds address atoi
    cut_last decimal decimal_from is_port name split_host_port split_plain text_of valid_utf8 split
    split_from line_of trim_space reverse_onto trim_back trim_left uncomment cut lines header
    at_blank section_name unquote has new_section parse
text_conf = refl

parse-IsValid_example : Gives IsValid (parse no_duration none text)
parse-IsValid_example = parse-IsValid no_duration none text

split-IsSection_example : Gives (All IsSection) (split text)
split-IsSection_example = split-IsSection text

refused : split refused_text ≡ Parsed.refused no_equals
unfolding split httppooler.Conf.Parse.split_from httppooler.Conf.Parse.line_of
    httppooler.Conf.Text.trim_space httppooler.Conf.Text.reverse_onto httppooler.Conf.Text.trim_back
    httppooler.Conf.Text.trim_left httppooler.Conf.Parse.uncomment httppooler.Conf.Text.cut lines
    httppooler.Conf.Parse.setting
refused = refl

split_line_example : (1 ≤ 2) × (2 ≤ 2)
unfolding lines
split_line_example = split_line refused_text no_equals refused
