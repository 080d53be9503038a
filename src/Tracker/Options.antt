-- ===== src/Tracker/Options.antt =====
-- bip_utracker/src/option.rs: the options that may stand behind an announce request.
pub mod Rounds
pub mod RoundTrip
pub mod Ends
use rust_bt.Base.{
  ℕ, zero, suc, ◌+◌, List, [], ◌∷◌, ◌++◌, Bool, true, false, Option, none, some, Bytes, length,
  take, drop, replicate, ◌==◌, if◌then◌else◌,
}
use rust_bt.Wire.{IResult, done, error, incomplete, Parser, Nom, Byteorder, ◌>>=◌, value}

abbrev pub end_of_options_byte : ℕ
end_of_options_byte = 0x00

abbrev pub no_operation_byte : ℕ
no_operation_byte = 0x01

abbrev pub url_data_byte : ℕ
url_data_byte = 0x02

-- The entries of the map, in the order in which it yields them.
abbrev pub RawOptions : Type 0
RawOptions = List (ℕ × Bytes)

pub record AnnounceOptions : Type 0 where
  pub raw_options : RawOptions

unfoldable pub new : AnnounceOptions
new = record { raw_options = [] }

unfoldable pub lookup : ℕ → RawOptions → Option Bytes
lookup byte [] = none
lookup byte ((key, contents) ∷ options) = if key == byte then some contents else lookup byte options

-- `HashMap::insert`: what stood under the key is replaced.
unfoldable pub insert_entry : ℕ → Bytes → RawOptions → RawOptions
insert_entry byte contents [] = (byte, contents) ∷ []
insert_entry byte contents ((key, old) ∷ options) =
    if key == byte
    then (key, contents) ∷ options
    else (key, old) ∷ insert_entry byte contents options

unfoldable pub insert_bytes : ℕ → Bytes → AnnounceOptions → AnnounceOptions
unfolding insert_entry
insert_bytes byte contents options = record options {
  raw_options = insert_entry byte contents options.raw_options;
}

-- The trait `AnnounceOption`; `write_option` fills a buffer of the option's length.
pub record AnnounceOption (O : Type 0) : Type 0 where
  pub option_byte : ℕ
  pub option_length : O → ℕ
  pub read_option : Bytes → Option O
  pub write_option : O → Bytes → Bytes

module _ {O : Type 0} (trait : AnnounceOption O) where
  unfoldable pub read_found : Option Bytes → Option O
  read_found none = none
  read_found (some bytes) = trait.read_option bytes

  unfoldable pub get : AnnounceOptions → Option O
  unfolding lookup read_found
  get options = read_found (lookup trait.option_byte options.raw_options)

  unfoldable pub insert : O → AnnounceOptions → AnnounceOptions
  unfolding insert_bytes
  insert option options =
      insert_bytes trait.option_byte
        (trait.write_option option (replicate (trait.option_length option) 0)) options

pub record UrlDataOption : Type 0 where
  pub url_data : Bytes

-- Writing into the slice overwrites its first bytes, as many as there are.
unfoldable pub url_data_option : AnnounceOption UrlDataOption
url_data_option = record {
  option_byte = url_data_byte;
  option_length = λ option. length option.url_data;
  read_option = λ bytes. some (record { url_data = bytes });
  write_option =
      λ option buffer. take (length buffer) option.url_data ++ drop (length option.url_data) buffer;
}

module _ ⦃order : Byteorder⦄ where
  -- `content.chunks(255)`, each with its byte and its length; a chunk takes at least one byte, so the
  -- content's length bounds the rounds.
  unfoldable pub write_chunks : ℕ → ℕ → Bytes → Bytes
  write_chunks rounds byte [] = []
  write_chunks zero byte (c ∷ content) = []
  write_chunks (suc rounds) byte (c ∷ content) =
      let chunk = take 255 (c ∷ content) in
      order.write_u8 byte
      ++ (order.write_u8 (length chunk)
          ++ (chunk ++ write_chunks rounds byte (drop 255 (c ∷ content))))

  unfoldable pub write_raw : RawOptions → Bytes
  write_raw [] = []
  write_raw ((byte, content) ∷ options) =
      write_chunks (length content) byte content ++ write_raw options

  unfoldable pub write_options : AnnounceOptions → Bytes
  write_options options = write_raw options.raw_options ++ order.write_u8 end_of_options_byte

-- The entry of the option is extended, or put in.
unfoldable pub extend_entry : ℕ → Bytes → RawOptions → RawOptions
extend_entry byte contents [] = (byte, contents) ∷ []
extend_entry byte contents ((key, old) ∷ options) =
    if key == byte
    then (key, old ++ contents) ∷ options
    else (key, old) ∷ extend_entry byte contents options

module _ ⦃nom : Nom⦄ where
  unfoldable pub parse_end_option : Parser Bool
  parse_end_option bytes =
      nom.and_then (nom.alt (nom.eof bytes) (nom.tag (end_of_options_byte ∷ []) bytes))
        λ rest _. done rest true

  unfoldable pub parse_no_option : Parser Bool
  parse_no_option = do _ ← nom.tag (no_operation_byte ∷ []); value false

  -- `length_bytes!(byte_usize)`
  unfoldable pub option_contents : Parser Bytes
  option_contents = do size ← nom.be_u8; nom.take size

  -- The map is changed along with the result; the value says whether the end was found.
  unfoldable pub parse_user_option : RawOptions → Parser (Bool × RawOptions)
  parse_user_option option_map = do
    option_byte ← nom.be_u8
    contents ← option_contents
    value (false, extend_entry option_byte contents option_map)

  -- One round: the parsers are tried in turn.
  unfoldable pub parse_option : RawOptions → Parser (Bool × RawOptions)
  parse_option option_map bytes =
      let with_map : Parser Bool → IResult (Bool × RawOptions) = λ (p : Parser Bool).
        nom.and_then (p bytes) (λ rest found_eof. done rest (found_eof, option_map)) in
      nom.alt (with_map parse_end_option)
        (nom.alt (with_map parse_no_option) (parse_user_option option_map bytes))

  -- The `while` loop; each round but the last takes a byte at least, so that one more round than there
  -- are bytes is enough, and the error of the clause for no round is never met.
  unfoldable pub parse_options : ℕ → RawOptions → Parser RawOptions
  parse_options zero option_map bytes = error 0
  parse_options (suc rounds) option_map bytes =
      nom.and_then (parse_option option_map bytes) λ curr_bytes result.
        if result.0 then done curr_bytes result.1 else parse_options rounds result.1 curr_bytes

  unfoldable pub options_from_bytes : Parser AnnounceOptions
  options_from_bytes bytes =
      nom.and_then (parse_options (suc (length bytes)) [] bytes)
        λ rest raw_options. done rest (record { raw_options = raw_options })
