-- ===== src/Config/Parser.antt =====
-- internal/config/parser.go: Parse. The YAML decoder is a parameter: what its first call makes of the
-- text, and how the second one ends.
use forgeci.Base.{Option, String, none, refl, some, subst, ◌≡◌}
use forgeci.Config.{Pipeline}
use forgeci.Config.Checks.{Invalid}
use forgeci.Config.Validation.{validate}

pub data Second : Type 0 where
  end_of_file document decode_error : Second

pub record Yaml : Type 0 where
  pub decode : String → Option Pipeline
  pub decode_again : String → Second

-- The errors of Parse; the text of the decoder is left out.
pub data Parsed : Type 0 where
  cannot_parse multiple_documents : Parsed
  cannot_validate : Invalid → Parsed
  parsed : Pipeline → Parsed

abbrev pub validated : Pipeline → Option Invalid → Parsed
validated cfg none = parsed cfg
validated cfg (some reason) = cannot_validate reason

unfoldable pub parse_second : Pipeline → Second → Parsed
parse_second cfg end_of_file = validated cfg (validate cfg)
parse_second cfg document = multiple_documents
parse_second cfg decode_error = cannot_parse

unfoldable pub parse_first : Yaml → String → Option Pipeline → Parsed
parse_first yaml text none = cannot_parse
parse_first yaml text (some cfg) = parse_second cfg (yaml.decode_again text)

unfoldable pub parse : Yaml → String → Parsed
parse yaml text = parse_first yaml text (yaml.decode text)

validated-accepted :
    (cfg p : Pipeline) (o : Option Invalid) → validated cfg o ≡ parsed p → (cfg ≡ p) × (o ≡ none)
validated-accepted cfg p none h = (cc, refl)
validated-accepted cfg p (some reason) h = cc

parse_second-accepted :
    (cfg p : Pipeline) (s : Second) → parse_second cfg s ≡ parsed p → validate p ≡ none
unfolding parse_second
parse_second-accepted cfg p end_of_file h =
    let (same, accepted) = validated-accepted cfg p (validate cfg) h in
    subst (λ q. validate q ≡ none) same accepted
parse_second-accepted cfg p document h = cc
parse_second-accepted cfg p decode_error h = cc

parse_first-accepted :
    (yaml : Yaml) (text : String) (p : Pipeline) (o : Option Pipeline)
    → parse_first yaml text o ≡ parsed p
    → validate p ≡ none
unfolding parse_first
parse_first-accepted yaml text p none h = cc
parse_first-accepted yaml text p (some cfg) h =
    parse_second-accepted cfg p (yaml.decode_again text) h

-- Parse returns a pipeline only if Validate accepts it.
pub parse-accepted :
    (yaml : Yaml) (text : String) (p : Pipeline) → parse yaml text ≡ parsed p → validate p ≡ none
unfolding parse
parse-accepted yaml text p h = parse_first-accepted yaml text p (yaml.decode text) h
