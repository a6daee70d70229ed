-- ===== src/Manifest/Names/Tables.antt =====
-- The tables of names of src/elfrc/manifest_yaml.c, with their values.
use elfrc.Base.{ℕ, List, [], ◌∷◌}
use elfrc.Format.ResourceType
use elfrc.Format.Compression
use elfrc.Format.ResourceFlag

-- `type_from_name`; the values are those of `enum erf_resource_type`.
abbrev pub type_names : List (List ℕ × ℕ)
type_names =
    ((b'b' ∷ b'i' ∷ b'n' ∷ b'a' ∷ b'r' ∷ b'y' ∷ []), ResourceType.binary)
    ∷ ((b's' ∷ b't' ∷ b'r' ∷ b'i' ∷ b'n' ∷ b'g' ∷ []), ResourceType.string)
    ∷ ((b'j' ∷ b's' ∷ b'o' ∷ b'n' ∷ []), ResourceType.json)
    ∷ ((b'x' ∷ b'm' ∷ b'l' ∷ []), ResourceType.xml)
    ∷ ((b'y' ∷ b'a' ∷ b'm' ∷ b'l' ∷ []), ResourceType.yaml)
    ∷ ((b'p' ∷ b'n' ∷ b'g' ∷ []), ResourceType.png)
    ∷ ((b'j' ∷ b'p' ∷ b'e' ∷ b'g' ∷ []), ResourceType.jpeg)
    ∷ ((b'j' ∷ b'p' ∷ b'g' ∷ []), ResourceType.jpeg)
    ∷ ((b's' ∷ b'v' ∷ b'g' ∷ []), ResourceType.svg)
    ∷ ((b'g' ∷ b'i' ∷ b'f' ∷ []), ResourceType.gif)
    ∷ ((b'i' ∷ b'c' ∷ b'o' ∷ b'n' ∷ []), ResourceType.icon)
    ∷ ((b'i' ∷ b'c' ∷ b'o' ∷ []), ResourceType.icon)
    ∷ ((b'f' ∷ b'o' ∷ b'n' ∷ b't' ∷ []), ResourceType.font)
    ∷ ((b't' ∷ b't' ∷ b'f' ∷ []), ResourceType.font)
    ∷ ((b'a' ∷ b'u' ∷ b'd' ∷ b'i' ∷ b'o' ∷ []), ResourceType.audio)
    ∷ ((b'v' ∷ b'i' ∷ b'd' ∷ b'e' ∷ b'o' ∷ []), ResourceType.video)
    ∷ ((b's' ∷ b'h' ∷ b'a' ∷ b'd' ∷ b'e' ∷ b'r' ∷ []), ResourceType.shader)
    ∷ (
      (b'c' ∷ b'e' ∷ b'r' ∷ b't' ∷ b'i' ∷ b'f' ∷ b'i' ∷ b'c' ∷ b'a' ∷ b't' ∷ b'e' ∷ []),
      ResourceType.certificate,
    )
    ∷ ((b'c' ∷ b'e' ∷ b'r' ∷ b't' ∷ []), ResourceType.certificate)
    ∷ []

-- `type_from_extension`.
abbrev pub extensions : List (List ℕ × ℕ)
extensions =
    ((b'.' ∷ b'p' ∷ b'n' ∷ b'g' ∷ []), ResourceType.png)
    ∷ ((b'.' ∷ b'j' ∷ b'p' ∷ b'g' ∷ []), ResourceType.jpeg)
    ∷ ((b'.' ∷ b'j' ∷ b'p' ∷ b'e' ∷ b'g' ∷ []), ResourceType.jpeg)
    ∷ ((b'.' ∷ b's' ∷ b'v' ∷ b'g' ∷ []), ResourceType.svg)
    ∷ ((b'.' ∷ b'g' ∷ b'i' ∷ b'f' ∷ []), ResourceType.gif)
    ∷ ((b'.' ∷ b'i' ∷ b'c' ∷ b'o' ∷ []), ResourceType.icon)
    ∷ ((b'.' ∷ b't' ∷ b't' ∷ b'f' ∷ []), ResourceType.font)
    ∷ ((b'.' ∷ b'o' ∷ b't' ∷ b'f' ∷ []), ResourceType.font)
    ∷ ((b'.' ∷ b'j' ∷ b's' ∷ b'o' ∷ b'n' ∷ []), ResourceType.json)
    ∷ ((b'.' ∷ b'x' ∷ b'm' ∷ b'l' ∷ []), ResourceType.xml)
    ∷ ((b'.' ∷ b'y' ∷ b'a' ∷ b'm' ∷ b'l' ∷ []), ResourceType.yaml)
    ∷ ((b'.' ∷ b'y' ∷ b'm' ∷ b'l' ∷ []), ResourceType.yaml)
    ∷ ((b'.' ∷ b'w' ∷ b'a' ∷ b'v' ∷ []), ResourceType.audio)
    ∷ ((b'.' ∷ b'm' ∷ b'p' ∷ b'3' ∷ []), ResourceType.audio)
    ∷ ((b'.' ∷ b'o' ∷ b'g' ∷ b'g' ∷ []), ResourceType.audio)
    ∷ ((b'.' ∷ b'm' ∷ b'p' ∷ b'4' ∷ []), ResourceType.video)
    ∷ ((b'.' ∷ b'w' ∷ b'e' ∷ b'b' ∷ b'm' ∷ []), ResourceType.video)
    ∷ ((b'.' ∷ b's' ∷ b'p' ∷ b'v' ∷ []), ResourceType.shader)
    ∷ ((b'.' ∷ b'g' ∷ b'l' ∷ b's' ∷ b'l' ∷ []), ResourceType.shader)
    ∷ ((b'.' ∷ b'h' ∷ b'l' ∷ b's' ∷ b'l' ∷ []), ResourceType.shader)
    ∷ ((b'.' ∷ b'p' ∷ b'e' ∷ b'm' ∷ []), ResourceType.certificate)
    ∷ ((b'.' ∷ b'c' ∷ b'r' ∷ b't' ∷ []), ResourceType.certificate)
    ∷ ((b'.' ∷ b'c' ∷ b'e' ∷ b'r' ∷ []), ResourceType.certificate)
    ∷ ((b'.' ∷ b't' ∷ b'x' ∷ b't' ∷ []), ResourceType.string)
    ∷ []

-- `compression_from_name`; the values are those of `enum erf_compression`.
abbrev pub compression_names : List (List ℕ × ℕ)
compression_names =
    ((b'n' ∷ b'o' ∷ b'n' ∷ b'e' ∷ []), Compression.none)
    ∷ ((b'd' ∷ b'e' ∷ b'f' ∷ b'l' ∷ b'a' ∷ b't' ∷ b'e' ∷ []), Compression.deflate)
    ∷ ((b'z' ∷ b's' ∷ b't' ∷ b'd' ∷ []), Compression.zstd)
    ∷ ((b'z' ∷ b's' ∷ b't' ∷ b'a' ∷ b'n' ∷ b'd' ∷ b'a' ∷ b'r' ∷ b'd' ∷ []), Compression.zstd)
    ∷ ((b'l' ∷ b'z' ∷ b'4' ∷ []), Compression.lz4)
    ∷ ((b'b' ∷ b'r' ∷ b'o' ∷ b't' ∷ b'l' ∷ b'i' ∷ []), Compression.brotli)
    ∷ ((b'x' ∷ b'z' ∷ []), Compression.xz)
    ∷ []

-- `flag_from_name`; the values are the ERF_RFLAG bits.
abbrev pub flag_names : List (List ℕ × ℕ)
flag_names =
    (
      (b'c' ∷ b'o' ∷ b'm' ∷ b'p' ∷ b'r' ∷ b'e' ∷ b's' ∷ b's' ∷ b'e' ∷ b'd' ∷ []),
      ResourceFlag.compressed,
    )
    ∷ ((b'e' ∷ b'n' ∷ b'c' ∷ b'r' ∷ b'y' ∷ b'p' ∷ b't' ∷ b'e' ∷ b'd' ∷ []), ResourceFlag.encrypted)
    ∷ ((b'r' ∷ b'e' ∷ b'a' ∷ b'd' ∷ b'_' ∷ b'o' ∷ b'n' ∷ b'l' ∷ b'y' ∷ []), ResourceFlag.read_only)
    ∷ ((b'r' ∷ b'e' ∷ b'a' ∷ b'd' ∷ b'o' ∷ b'n' ∷ b'l' ∷ b'y' ∷ []), ResourceFlag.read_only)
    ∷ (
      (b'e' ∷ b'x' ∷ b'e' ∷ b'c' ∷ b'u' ∷ b't' ∷ b'a' ∷ b'b' ∷ b'l' ∷ b'e' ∷ []),
      ResourceFlag.executable,
    )
    ∷ ((b'o' ∷ b'p' ∷ b't' ∷ b'i' ∷ b'o' ∷ b'n' ∷ b'a' ∷ b'l' ∷ []), ResourceFlag.optional)
    ∷ []

-- `language_from_tag`.
abbrev pub language_tags : List (List ℕ × ℕ)
language_tags =
    ((b'e' ∷ b'n' ∷ b'-' ∷ b'u' ∷ b's' ∷ []), 1033)
    ∷ ((b'e' ∷ b'n' ∷ b'_' ∷ b'u' ∷ b's' ∷ []), 1033)
    ∷ ((b'e' ∷ b'n' ∷ []), 1033)
    ∷ ((b'd' ∷ b'e' ∷ b'-' ∷ b'd' ∷ b'e' ∷ []), 1031)
    ∷ ((b'd' ∷ b'e' ∷ b'_' ∷ b'd' ∷ b'e' ∷ []), 1031)
    ∷ ((b'd' ∷ b'e' ∷ []), 1031)
    ∷ ((b'f' ∷ b'r' ∷ b'-' ∷ b'f' ∷ b'r' ∷ []), 1036)
    ∷ ((b'f' ∷ b'r' ∷ b'_' ∷ b'f' ∷ b'r' ∷ []), 1036)
    ∷ ((b'f' ∷ b'r' ∷ []), 1036)
    ∷ []

abbrev pub neutral : List ℕ
neutral = (b'n' ∷ b'e' ∷ b'u' ∷ b't' ∷ b'r' ∷ b'a' ∷ b'l' ∷ [])
