-- ===== src/Logging/Loggers.antt =====
-- The levels of the loggers, out of the variable RUST_LOG (src/utils/logging/mod.rs). A text is the
-- list of its characters, by their numbers. The reading of a level belongs to `log`.
pub mod Laws
use safe_client_libs.Shared.{
  ℕ, Bool, true, false, not, ◌||◌, ◌&&◌, Option, none, some, List, [], ◌∷◌, ◌++◌, map, nat_beq, ltb,
  if◌then◌else◌,
}

abbrev pub Text : Type 0
Text = List ℕ

-- `LevelFilter`: its texts, and the level `Warn`.
pub record LevelApi (Level : Type 0) : Type 0 where
  pub parse : Text → Option Level
  pub warn : Level

pub record Logger (Level : Type 0) : Type 0 where
  pub name : Text
  pub level : Level

-- `str::split` at a character: one piece more than there are such characters.
abbrev add_first : ℕ → List Text → List Text
add_first c [] = (c ∷ []) ∷ []
add_first c (piece ∷ pieces) = (c ∷ piece) ∷ pieces

unfoldable pub split : ℕ → Text → List Text
split separator [] = [] ∷ []
split separator (c ∷ text) =
    let pieces = split separator text in
    if nat_beq c separator then [] ∷ pieces else add_first c pieces

-- `char::is_whitespace`: the property White_Space of Unicode.
abbrev between : ℕ → ℕ → ℕ → Bool
between low high c = not (ltb c low) && not (ltb high c)

abbrev is_whitespace : ℕ → Bool
is_whitespace c =
    between 9 13 c
    || nat_beq c 32
    || nat_beq c 133
    || nat_beq c 160
    || nat_beq c 5760
    || between 8192 8202 c
    || between 8232 8233 c
    || nat_beq c 8239
    || nat_beq c 8287
    || nat_beq c 12288

-- `str::trim`
unfoldable pub trim_start : Text → Text
trim_start [] = []
trim_start (c ∷ text) = let rest = trim_start text in if is_whitespace c then rest else c ∷ text

abbrev unless_empty : ℕ → Text → Text
unless_empty c [] = if is_whitespace c then [] else c ∷ []
unless_empty c (d ∷ text) = c ∷ d ∷ text

unfoldable pub trim_end : Text → Text
trim_end [] = []
trim_end (c ∷ text) = unless_empty c (trim_end text)

abbrev pub trim : Text → Text
trim text = trim_end (trim_start text)

abbrev keep_some : Text → List Text → List Text
keep_some [] texts = texts
keep_some (c ∷ text) texts = (c ∷ text) ∷ texts

abbrev comma : ℕ
comma = 44

abbrev equals : ℕ
equals = 61

-- `input.split(',').map(str::trim).filter(|d| !d.is_empty())`
unfoldable pub trimmed : List Text → List Text
unfolding trim_start trim_end
trimmed [] = []
trimmed (piece ∷ pieces) = keep_some (trim piece) (trimmed pieces)

unfoldable pub sub_inputs : Text → List Text
unfolding trimmed split
sub_inputs input = trimmed (split comma input)

-- The loggers so far, the modules that wait for a level, and the level for all others.
pub record Parse (Level : Type 0) : Type 0 where
  pub loggers : List (Logger Level)
  pub grouped_modules : List Text
  pub default_level : Level

module _ {Level : Type 0} (X : LevelApi Level) where
  abbrev pub with_level : Level → Text → Logger Level
  with_level level name = record { name = name; level = level }

  -- A name and a level.
  abbrev pub assign : Text → Parse Level → Option Level → Option (Parse Level)
  assign module_name p none = none
  assign module_name p (some level) = some (record p {
    loggers =
        (p.loggers ++ map (with_level level) p.grouped_modules)
        ++ (with_level level module_name ∷ []);
    grouped_modules = [];
  })

  -- A level, or else a name.
  abbrev pub level_or_name : Text → Parse Level → Option Level → Option (Parse Level)
  level_or_name text p (some level) = some (record p { default_level = level })
  level_or_name text p none = some (record p { grouped_modules = p.grouped_modules ++ (text ∷ []) })

  abbrev pub parse_parts : Parse Level → List Text → Option (Parse Level)
  parse_parts p [] = none
  parse_parts p (text ∷ []) = level_or_name text p (X.parse text)
  parse_parts p (module_name ∷ level ∷ _) = assign module_name p (X.parse level)

  unfoldable pub parse_sub_input : Text → Parse Level → Option (Parse Level)
  unfolding split trim_start trim_end
  parse_sub_input sub_input p = parse_parts p (split equals (trim sub_input))

  abbrev pub and_then :
      Option (Parse Level) → (Parse Level → Option (Parse Level)) → Option (Parse Level)
  and_then none f = none
  and_then (some p) f = f p

  unfoldable pub parse_sub_inputs : List Text → Parse Level → Option (Parse Level)
  parse_sub_inputs [] p = some p
  parse_sub_inputs (sub_input ∷ rest) p =
      and_then (parse_sub_input sub_input p) (parse_sub_inputs rest)

  -- The modules that still wait get the level for all others.
  abbrev pub finish_parse : Option (Parse Level) → Option (Level × List (Logger Level))
  finish_parse none = none
  finish_parse (some p) =
      some (p.default_level, p.loggers ++ map (with_level p.default_level) p.grouped_modules)

  unfoldable pub parse_loggers : Text → Option (Level × List (Logger Level))
  unfolding parse_sub_inputs sub_inputs
  parse_loggers input = finish_parse (
      parse_sub_inputs (sub_inputs input)
        (record { loggers = []; grouped_modules = []; default_level = X.warn }))

  -- Over the variable RUST_LOG, if it is set.
  unfoldable pub parse_loggers_from_env : Option Text → Option (Level × List (Logger Level))
  unfolding parse_loggers
  parse_loggers_from_env (some var) = parse_loggers var
  parse_loggers_from_env none = some (X.warn, [])
