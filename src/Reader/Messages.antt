-- ===== src/Reader/Messages.antt =====
-- `erf_strerror` of src/libelfr/erf_reader.c. The text for a value outside of the enum is not
-- reachable from it.
use elfrc.Base.{ℕ, List, [], ◌∷◌}
use elfrc.Reader.Outcome.{
  ErfError, erf_ok, bad_magic, unsupported_version, truncated, bad_offset, not_found,
  invalid_argument, no_default_container,
}

unfoldable pub erf_strerror : ErfError → List ℕ
erf_strerror erf_ok = b'o' ∷ b'k' ∷ []
erf_strerror bad_magic =
    b'b' ∷ b'a' ∷ b'd' ∷ b' ' ∷ b'E' ∷ b'R' ∷ b'F' ∷ b' ' ∷ b'm' ∷ b'a' ∷ b'g' ∷ b'i' ∷ b'c' ∷ []
erf_strerror unsupported_version =
    b'u' ∷ b'n' ∷ b's' ∷ b'u' ∷ b'p' ∷ b'p' ∷ b'o' ∷ b'r' ∷ b't' ∷ b'e' ∷ b'd' ∷ b' ' ∷ b'E' ∷ b'R'
    ∷ b'F' ∷ b' ' ∷ b'm' ∷ b'a' ∷ b'j' ∷ b'o' ∷ b'r' ∷ b' ' ∷ b'v' ∷ b'e' ∷ b'r' ∷ b's' ∷ b'i'
    ∷ b'o' ∷ b'n' ∷ []
erf_strerror truncated =
    b'c' ∷ b'o' ∷ b'n' ∷ b't' ∷ b'a' ∷ b'i' ∷ b'n' ∷ b'e' ∷ b'r' ∷ b' ' ∷ b't' ∷ b'r' ∷ b'u' ∷ b'n'
    ∷ b'c' ∷ b'a' ∷ b't' ∷ b'e' ∷ b'd' ∷ b' ' ∷ b'/' ∷ b' ' ∷ b's' ∷ b'm' ∷ b'a' ∷ b'l' ∷ b'l'
    ∷ b'e' ∷ b'r' ∷ b' ' ∷ b't' ∷ b'h' ∷ b'a' ∷ b'n' ∷ b' ' ∷ b'h' ∷ b'e' ∷ b'a' ∷ b'd' ∷ b'e'
    ∷ b'r' ∷ b' ' ∷ b'c' ∷ b'l' ∷ b'a' ∷ b'i' ∷ b'm' ∷ b's' ∷ []
erf_strerror bad_offset =
    b'c' ∷ b'o' ∷ b'n' ∷ b't' ∷ b'a' ∷ b'i' ∷ b'n' ∷ b'e' ∷ b'r' ∷ b' ' ∷ b'h' ∷ b'a' ∷ b's' ∷ b' '
    ∷ b'a' ∷ b'n' ∷ b' ' ∷ b'o' ∷ b'u' ∷ b't' ∷ b'-' ∷ b'o' ∷ b'f' ∷ b'-' ∷ b'b' ∷ b'o' ∷ b'u'
    ∷ b'n' ∷ b'd' ∷ b's' ∷ b' ' ∷ b'o' ∷ b'f' ∷ b'f' ∷ b's' ∷ b'e' ∷ b't' ∷ b' ' ∷ b'o' ∷ b'r'
    ∷ b' ' ∷ b's' ∷ b'i' ∷ b'z' ∷ b'e' ∷ []
erf_strerror not_found =
    b'r' ∷ b'e' ∷ b's' ∷ b'o' ∷ b'u' ∷ b'r' ∷ b'c' ∷ b'e' ∷ b' ' ∷ b'n' ∷ b'o' ∷ b't' ∷ b' ' ∷ b'f'
    ∷ b'o' ∷ b'u' ∷ b'n' ∷ b'd' ∷ []
erf_strerror invalid_argument =
    b'i' ∷ b'n' ∷ b'v' ∷ b'a' ∷ b'l' ∷ b'i' ∷ b'd' ∷ b' ' ∷ b'a' ∷ b'r' ∷ b'g' ∷ b'u' ∷ b'm' ∷ b'e'
    ∷ b'n' ∷ b't' ∷ []
erf_strerror no_default_container =
    b'n' ∷ b'o' ∷ b' ' ∷ b'd' ∷ b'e' ∷ b'f' ∷ b'a' ∷ b'u' ∷ b'l' ∷ b't' ∷ b' ' ∷ b'.' ∷ b'r' ∷ b'e'
    ∷ b's' ∷ b'o' ∷ b'u' ∷ b'r' ∷ b'c' ∷ b'e' ∷ b' ' ∷ b'o' ∷ b'b' ∷ b'j' ∷ b'e' ∷ b'c' ∷ b't'
    ∷ b' ' ∷ b'l' ∷ b'i' ∷ b'n' ∷ b'k' ∷ b'e' ∷ b'd' ∷ b' ' ∷ b'i' ∷ b'n' ∷ b't' ∷ b'o' ∷ b' '
    ∷ b't' ∷ b'h' ∷ b'i' ∷ b's' ∷ b' ' ∷ b'b' ∷ b'i' ∷ b'n' ∷ b'a' ∷ b'r' ∷ b'y' ∷ []
