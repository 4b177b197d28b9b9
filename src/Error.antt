-- ===== src/Error.antt =====
-- src/error.rs: what can go wrong, the error value, and how it is classified. `Result` is the
-- outcome of fallible code in every module.

pub mod Classes
pub mod Equality
use simd_toon_improved.Base.{
  ℕ, Bool, true, false, not, ◌||◌, Option, none, some, ◌==◌, Bytes, equal,
}

pub data InternalError : Type 0 where
  tape_error : InternalError

-- `ValueType` and `std::io::Error` are types of other crates, of which nothing is read here: a
-- number stands for such a value.
pub data ErrorType : Type 0 where
  unexpected : Option ℕ → Option ℕ → ErrorType
  input_too_large bad_key_type expected_array expected_array_comma expected_boolean : ErrorType
  expected_enum expected_float expected_integer expected_map expected_object_colon : ErrorType
  expected_map_comma expected_map_end expected_null expected_true expected_false : ErrorType
  expected_number expected_signed expected_string expected_unsigned : ErrorType
  internal_error : InternalError → ErrorType
  invalid_escape invalid_indent_size invalid_exponent invalid_number invalid_utf8 : ErrorType
  invalid_unicode_escape invalid_unicode_codepoint key_must_be_a_string no_structure : ErrorType
  parser eof : ErrorType
  serde : Bytes → ErrorType
  syntax trailing_data unexpected_character unterminated_string expected_array_content : ErrorType
  expected_object_content expected_object_key overflow simd_unsupported : ErrorType
  io : ℕ → ErrorType

-- Constructors in the order of declaration, to compare those that carry nothing.
abbrev tag : ErrorType → ℕ
tag (unexpected a b) = 0
tag input_too_large = 1
tag bad_key_type = 2
tag expected_array = 3
tag expected_array_comma = 4
tag expected_boolean = 5
tag expected_enum = 6
tag expected_float = 7
tag expected_integer = 8
tag expected_map = 9
tag expected_object_colon = 10
tag expected_map_comma = 11
tag expected_map_end = 12
tag expected_null = 13
tag expected_true = 14
tag expected_false = 15
tag expected_number = 16
tag expected_signed = 17
tag expected_string = 18
tag expected_unsigned = 19
tag (internal_error e) = 20
tag invalid_escape = 21
tag invalid_indent_size = 22
tag invalid_exponent = 23
tag invalid_number = 24
tag invalid_utf8 = 25
tag invalid_unicode_escape = 26
tag invalid_unicode_codepoint = 27
tag key_must_be_a_string = 28
tag no_structure = 29
tag parser = 30
tag eof = 31
tag (serde s) = 32
tag syntax = 33
tag trailing_data = 34
tag unexpected_character = 35
tag unterminated_string = 36
tag expected_array_content = 37
tag expected_object_content = 38
tag expected_object_key = 39
tag overflow = 40
tag simd_unsupported = 41
tag (io e) = 42

-- `PartialEq for ErrorType`: two values of one of the listed constructors are equal, `Serde` and
-- `InternalError` compare what they carry, and the catch-all says that all others differ.
unfoldable pub error_type_eq : ErrorType → ErrorType → Bool
error_type_eq (serde s1) (serde s2) = equal s1 s2
error_type_eq (internal_error tape_error) (internal_error tape_error) = true
error_type_eq (unexpected a b) other = false
error_type_eq input_too_large other = false
error_type_eq simd_unsupported other = false
error_type_eq self other = tag self == tag other

pub record Error : Type 0 where
  pub index : ℕ
  pub character : Option ℕ
  pub err_type : ErrorType

abbrev pub new : ℕ → Option ℕ → ErrorType → Error
new index character err_type = record { index = index; character = character; err_type = err_type }

abbrev pub new_c : ℕ → ℕ → ErrorType → Error
new_c index character error = new index (some character) error

abbrev pub generic : ErrorType → Error
generic t = record { index = 0; character = none; err_type = t }

-- `fault` is a panic of a debug build: an index out of range, or an unsigned subtraction below 0.
-- `out_of_fuel` has no counterpart in the program.
pub data Result (A : Type 0) : Type 0 where
  ok : A → Result A
  err : Error → Result A
  fault out_of_fuel : Result A

-- The classes of errors, on the type.
abbrev io_type : ErrorType → Bool
io_type (io e) = true
io_type input_too_large = true
io_type other = false

abbrev eof_type : ErrorType → Bool
eof_type eof = true
eof_type other = false

abbrev syntax_type : ErrorType → Bool
syntax_type (internal_error tape_error) = true
syntax_type bad_key_type = true
syntax_type expected_array_comma = true
syntax_type expected_object_colon = true
syntax_type expected_map_comma = true
syntax_type expected_map_end = true
syntax_type invalid_escape = true
syntax_type invalid_exponent = true
syntax_type invalid_number = true
syntax_type invalid_utf8 = true
syntax_type invalid_unicode_escape = true
syntax_type invalid_unicode_codepoint = true
syntax_type key_must_be_a_string = true
syntax_type no_structure = true
syntax_type parser = true
syntax_type syntax = true
syntax_type trailing_data = true
syntax_type unexpected_character = true
syntax_type unterminated_string = true
syntax_type expected_array_content = true
syntax_type expected_object_content = true
syntax_type expected_object_key = true
syntax_type overflow = true
syntax_type simd_unsupported = true
syntax_type other = false

unfoldable pub is_io : Error → Bool
is_io self = io_type self.err_type

unfoldable pub is_eof : Error → Bool
is_eof self = eof_type self.err_type

unfoldable pub is_syntax : Error → Bool
is_syntax self = syntax_type self.err_type

unfoldable pub is_data : Error → Bool
unfolding is_syntax is_eof is_io
is_data self = not (is_syntax self || is_eof self || is_io self)
