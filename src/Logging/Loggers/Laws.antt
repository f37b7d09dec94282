-- ===== src/Logging/Loggers/Laws.antt =====
-- The loggers that RUST_LOG asks for, described directive by directive, and that `parse_loggers`
-- gives just these.
use mathlib.Core.List.{map-append, append_assoc, append-nil}
use safe_client_libs.Shared.{◌≡◌, refl, sym, ap, ◌∙◌, Option, none, some, List, [], ◌∷◌, ◌++◌, map}
use safe_client_libs.Logging.Loggers.{
  Text, LevelApi, Logger, Parse, and_then, split, trim, sub_inputs, with_level, assign,
  level_or_name, parse_parts, parse_sub_input, parse_sub_inputs, finish_parse, parse_loggers,
}

-- What a part of RUST_LOG asks for.
pub data Directive (Level : Type 0) : Type 0 where
  module_level : Text → Level → Directive Level
  level_for_all : Level → Directive Level
  module_alone : Text → Directive Level

module _ {Level : Type 0} (X : LevelApi Level) where
  abbrev named : Text → Option Level → Option (Directive Level)
  named name none = none
  named name (some level) = some (module_level name level)

  abbrev alone : Text → Option Level → Directive Level
  alone text none = module_alone text
  alone text (some level) = level_for_all level

  abbrev of_parts : List Text → Option (Directive Level)
  of_parts [] = none
  of_parts (text ∷ []) = some (alone text (X.parse text))
  of_parts (name ∷ level ∷ _) = named name (X.parse level)

  abbrev pub directive : Text → Option (Directive Level)
  directive text = of_parts (split 61 (trim text))

  -- The directives of these texts, if each of them is one.
  abbrev put_first :
      Option (Directive Level) → Option (List (Directive Level)) → Option (List (Directive Level))
  put_first none ds = none
  put_first (some d) none = none
  put_first (some d) (some ds) = some (d ∷ ds)

  abbrev pub directives : List Text → Option (List (Directive Level))
  directives [] = some []
  directives (text ∷ texts) = put_first (directive text) (directives texts)

  -- The level for all others: the last one that stands alone.
  abbrev pub level_of_all : Level → List (Directive Level) → Level
  level_of_all level [] = level
  level_of_all level (module_level _ _ ∷ ds) = level_of_all level ds
  level_of_all level (level_for_all l ∷ ds) = level_of_all l ds
  level_of_all level (module_alone _ ∷ ds) = level_of_all level ds

  -- The level of a module that stands alone before these directives: that of the next module with a
  -- level, or the level for all others.
  abbrev pub next_level : Level → List (Directive Level) → Level
  next_level level [] = level
  next_level level (module_level _ l ∷ ds) = l
  next_level level (level_for_all _ ∷ ds) = next_level level ds
  next_level level (module_alone _ ∷ ds) = next_level level ds

  -- A logger for every module, in the order of the text.
  abbrev pub asked_for : Level → List (Directive Level) → List (Logger Level)
  asked_for level [] = []
  asked_for level (module_level name l ∷ ds) = with_level X l name ∷ asked_for level ds
  asked_for level (level_for_all _ ∷ ds) = asked_for level ds
  asked_for level (module_alone name ∷ ds) =
      with_level X (next_level level ds) name ∷ asked_for level ds

  abbrev pub configured : Option (List (Directive Level)) → Option (Level × List (Logger Level))
  configured none = none
  configured (some ds) = some (level_of_all X.warn ds, asked_for (level_of_all X.warn ds) ds)

  -- The same from a state in the middle of the text.
  abbrev continued :
      Parse Level → Option (List (Directive Level)) → Option (Level × List (Logger Level))
  continued p none = none
  continued p (some ds) = some (
    level_of_all p.default_level ds,
    p.loggers
        ++ (map (with_level X (next_level (level_of_all p.default_level ds) ds)) p.grouped_modules
            ++ asked_for (level_of_all p.default_level ds) ds),
  )

  abbrev Continues : List Text → Type 0
  Continues texts =
      (p : Parse Level)
      → finish_parse X (parse_sub_inputs X texts p) ≡ continued p (directives texts)

  -- A module that waits, one that has a level, and a level for all others.
  after_name :
      (texts : List Text) (name : Text) (p : Parse Level) (ds : Option (List (Directive Level)))
      → continued (record p { grouped_modules = p.grouped_modules ++ (name ∷ []) }) ds
        ≡ continued p (put_first (some (module_alone name)) ds)
  after_name texts name p none = refl
  after_name texts name p (some ds) =
      let level = next_level (level_of_all p.default_level ds) ds in
      let rest = asked_for (level_of_all p.default_level ds) ds in
      ap (λ ls. some (level_of_all p.default_level ds, p.loggers ++ ls))
        (ap (λ ls. ls ++ rest) (map-append (with_level X level) p.grouped_modules (name ∷ []))
          ∙ append_assoc (map (with_level X level) p.grouped_modules) (with_level X level name ∷ [])
              rest)

  after_level :
      (level : Level) (p : Parse Level) (ds : Option (List (Directive Level)))
      → continued (record p { default_level = level }) ds
        ≡ continued p (put_first (some (level_for_all level)) ds)
  after_level level p none = refl
  after_level level p (some ds) = refl

  after_assign :
      (name : Text) (level : Level) (p : Parse Level) (ds : Option (List (Directive Level)))
      → continued
          (record p {
            loggers =
                (p.loggers ++ map (with_level X level) p.grouped_modules)
                ++ (with_level X level name ∷ []);
            grouped_modules = [];
          })
          ds
        ≡ continued p (put_first (some (module_level name level)) ds)
  after_assign name level p none = refl
  after_assign name level p (some ds) =
      let waiting = map (with_level X level) p.grouped_modules in
      let rest = asked_for (level_of_all p.default_level ds) ds in
      ap (λ ls. some (level_of_all p.default_level ds, ls))
        (append_assoc (p.loggers ++ waiting) (with_level X level name ∷ []) rest
          ∙ append_assoc p.loggers waiting (with_level X level name ∷ rest))

  parts-continued :
      (texts : List Text) (p : Parse Level) (parts : List Text)
      → Continues texts
      → finish_parse X (and_then X (parse_parts X p parts) (parse_sub_inputs X texts))
        ≡ continued p (put_first (of_parts parts) (directives texts))
  parts-continued texts p [] later = refl
  parts-continued texts p (text ∷ []) later = go (X.parse text)
    where
      go :
          (o : Option Level)
          → finish_parse X (and_then X (level_or_name X text p o) (parse_sub_inputs X texts))
            ≡ continued p (put_first (some (alone text o)) (directives texts))
      go none = later _ ∙ after_name texts text p (directives texts)
      go (some level) = later _ ∙ after_level level p (directives texts)
  parts-continued texts p (name ∷ text ∷ _) later = go (X.parse text)
    where
      go :
          (o : Option Level)
          → finish_parse X (and_then X (assign X name p o) (parse_sub_inputs X texts))
            ≡ continued p (put_first (named name o) (directives texts))
      go none = refl
      go (some level) = later _ ∙ after_assign name level p (directives texts)

  finish_parse-continued :
      (texts : List Text) (p : Parse Level)
      → finish_parse X (parse_sub_inputs X texts p) ≡ continued p (directives texts)
  unfolding parse_sub_inputs parse_sub_input
  finish_parse-continued [] p =
      ap (λ ls. some (p.default_level, p.loggers ++ ls)) (sym (append-nil _))
  finish_parse-continued (text ∷ texts) p =
      parts-continued texts p (split 61 (trim text)) (finish_parse-continued texts)

  -- `parse_loggers` fails exactly when some part of the text is no directive: a module with a level
  -- that is none. Else it gives the level for all others, and a logger for every module, in the
  -- order of the text: with its own level, or with that of the next module that has one, or with
  -- the level for all others.
  pub parse_loggers-eq-configured :
      (input : Text) → parse_loggers X input ≡ configured (directives (sub_inputs input))
  unfolding parse_loggers
  parse_loggers-eq-configured input =
      finish_parse-continued (sub_inputs input) _ ∙ from_start (directives (sub_inputs input))
    where
      from_start :
          (o : Option (List (Directive Level)))
          → continued (record { loggers = []; grouped_modules = []; default_level = X.warn }) o
            ≡ configured o
      from_start none = refl
      from_start (some ds) = refl
