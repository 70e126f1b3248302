-- ===== src/Domain.antt =====
-- The rows and queries of the system: cpp/include/Record311.hpp and the messages Row311 and
-- QuerySpec of proto/overlay.proto.
-- A `std::string` is a `String` whose characters stand for its bytes, an unsigned integer is a ℕ,
-- and a `double` is an element of a type `D` with the operations of `Floating`.
pub mod Ymd
use mini2_aaa.Base.{
  string_eq, ℕ, ◌+◌, ◌-◌, ◌*◌, ◌%◌, ◌^◌, String, Bool, if◌then◌else◌, same, ltb, ◌||◌, length, List,
  [], ◌∷◌, get_or,
}
use mini2_aaa.Base.Int.{ℤ}
use Prim.Native.Char.{code}

-- IEEE doubles, as the hardware and <cmath> provide them: `<`, `==`, the constant 0.0, and
-- `static_cast<int32_t>(std::floor(x / GRID_DEG))`.
pub record Floating (D : Type 0) : Type 0 where
  pub lt : D → D → Bool
  pub eq : D → D → Bool
  pub nil : D
  pub grid_floor : D → ℤ

-- `Borough`.
pub data Borough : Type 0 where
  unspecified manhattan brooklyn queens bronx staten_island : Borough

-- `static_cast<std::uint8_t>(b)`.
abbrev pub borough_code : Borough → ℕ
borough_code Borough.unspecified = 0
borough_code Borough.manhattan = 1
borough_code Borough.brooklyn = 2
borough_code Borough.queens = 3
borough_code Borough.bronx = 4
borough_code Borough.staten_island = 5

unfoldable pub borough_from_string : String → Borough
borough_from_string s =
    if same s "MANHATTAN"
    then Borough.manhattan
    else if same s "BROOKLYN"
    then Borough.brooklyn
    else if same s "QUEENS"
    then Borough.queens
    else if same s "BRONX"
    then Borough.bronx
    else if same s "STATEN ISLAND"
    then Borough.staten_island
    else Borough.unspecified

unfoldable pub borough_to_string : Borough → String
borough_to_string Borough.manhattan = "MANHATTAN"
borough_to_string Borough.brooklyn = "BROOKLYN"
borough_to_string Borough.queens = "QUEENS"
borough_to_string Borough.bronx = "BRONX"
borough_to_string Borough.staten_island = "STATEN ISLAND"
borough_to_string Borough.unspecified = "UNSPECIFIED"

-- The bytes of a string.
abbrev pub bytes : String → List ℕ
bytes String.[] = []
bytes (String.◌∷◌ c s) = code c ∷ bytes s

-- `static_cast<uint32_t>(c - '0')`: the difference is an `int`, and the bytes from 128 on are
-- negative as a `char`.
abbrev pub digit_value : ℕ → ℕ
digit_value c = if ltb c 128 then (c + 2 ^ 32 - 48) % 2 ^ 32 else (c + 2 ^ 32 - 304) % 2 ^ 32

-- `parseYmd`.
unfoldable pub parse_ymd : String → ℕ
parse_ymd s =
    if ltb (length cs) 10
    then 0
    else if ltb (at 0) b'0' || ltb b'9' (at 0)
    then 0
    else ((year * 10000) % 2 ^ 32 + (month * 100) % 2 ^ 32 + day) % 2 ^ 32
  where
    cs : List ℕ
    cs = bytes s

    at : ℕ → ℕ
    at i = get_or cs i 0

    year : ℕ
    year =
        (digit_value (at 0) * 1000
          + digit_value (at 1) * 100
          + digit_value (at 2) * 10
          + digit_value (at 3))
        % 2 ^ 32

    month : ℕ
    month = (digit_value (at 5) * 10 + digit_value (at 6)) % 2 ^ 32

    day : ℕ
    day = (digit_value (at 8) * 10 + digit_value (at 9)) % 2 ^ 32

-- `Row311`. The open enum `BoroughEnum` is its number.
pub record Row311 (D : Type 0) : Type 0 where
  pub unique_key : ℕ
  pub created_ymd : ℕ
  pub borough : ℕ
  pub latitude : D
  pub longitude : D
  pub complaint_type : String

-- `QuerySpec`.
pub record QuerySpec (D : Type 0) : Type 0 where
  pub borough : ℕ
  pub complaint_type : String
  pub date_from : ℕ
  pub date_to : ℕ
  pub min_lat : D
  pub max_lat : D
  pub min_lon : D
  pub max_lon : D
  pub use_geo_box : Bool
  pub max_rows : ℕ
