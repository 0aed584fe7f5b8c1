-- ===== src/Conf/Words.antt =====
-- The words of the configuration file, and the defaults of conf.go.
use httppooler.Base.{ℕ, [], ◌∷◌}
use httppooler.Base.Bytes.{Bytes}

abbrev pub role_key : Bytes
role_key = b'r' ∷ b'o' ∷ b'l' ∷ b'e' ∷ []

abbrev pub listen_key : Bytes
listen_key = b'l' ∷ b'i' ∷ b's' ∷ b't' ∷ b'e' ∷ b'n' ∷ []

abbrev pub server_key : Bytes
server_key = b's' ∷ b'e' ∷ b'r' ∷ b'v' ∷ b'e' ∷ b'r' ∷ []

abbrev pub secret_key : Bytes
secret_key = b's' ∷ b'e' ∷ b'c' ∷ b'r' ∷ b'e' ∷ b't' ∷ []

abbrev pub name_key : Bytes
name_key = b'n' ∷ b'a' ∷ b'm' ∷ b'e' ∷ []

abbrev pub queue_timeout_key : Bytes
queue_timeout_key =
    b'q' ∷ b'u' ∷ b'e' ∷ b'u' ∷ b'e' ∷ b'_' ∷ b't' ∷ b'i' ∷ b'm' ∷ b'e' ∷ b'o' ∷ b'u' ∷ b't' ∷ []

abbrev pub upstream_key : Bytes
upstream_key = b'u' ∷ b'p' ∷ b's' ∷ b't' ∷ b'r' ∷ b'e' ∷ b'a' ∷ b'm' ∷ []

abbrev pub max_concurrent_key : Bytes
max_concurrent_key =
    b'm' ∷ b'a' ∷ b'x' ∷ b'_' ∷ b'c' ∷ b'o' ∷ b'n' ∷ b'c' ∷ b'u' ∷ b'r' ∷ b'r' ∷ b'e' ∷ b'n' ∷ b't'
    ∷ []

abbrev pub priority_key : Bytes
priority_key = b'p' ∷ b'r' ∷ b'i' ∷ b'o' ∷ b'r' ∷ b'i' ∷ b't' ∷ b'y' ∷ []

abbrev pub client_word : Bytes
client_word = b'c' ∷ b'l' ∷ b'i' ∷ b'e' ∷ b'n' ∷ b't' ∷ []

abbrev pub default_listen : Bytes
default_listen =
    b'0' ∷ b'.' ∷ b'0' ∷ b'.' ∷ b'0' ∷ b'.' ∷ b'0' ∷ b':' ∷ b'7' ∷ b'4' ∷ b'2' ∷ b'0' ∷ []

abbrev pub default_name : Bytes
default_name = b'h' ∷ b't' ∷ b't' ∷ b'p' ∷ b'p' ∷ b'o' ∷ b'o' ∷ b'l' ∷ b'e' ∷ b'r' ∷ []

-- Ten minutes, in nanoseconds.
abbrev pub default_queue_timeout : ℕ
default_queue_timeout = 600000000000

abbrev pub default_concurrent : ℕ
default_concurrent = 1

abbrev pub default_priority : ℕ
default_priority = 100

abbrev pub secret_size : ℕ
secret_size = 32
