-- ===== src/Format/ResourceType.antt =====
-- `enum erf_resource_type` of include/elfr/erf_format.h.
use elfrc.Base.{ℕ}

abbrev pub binary : ℕ
binary = 0

abbrev pub string : ℕ
string = 1

abbrev pub json : ℕ
json = 2

abbrev pub xml : ℕ
xml = 3

abbrev pub yaml : ℕ
yaml = 4

abbrev pub png : ℕ
png = 5

abbrev pub jpeg : ℕ
jpeg = 6

abbrev pub svg : ℕ
svg = 7

abbrev pub gif : ℕ
gif = 8

abbrev pub icon : ℕ
icon = 9

abbrev pub font : ℕ
font = 10

abbrev pub audio : ℕ
audio = 11

abbrev pub video : ℕ
video = 12

abbrev pub shader : ℕ
shader = 13

abbrev pub certificate : ℕ
certificate = 14
