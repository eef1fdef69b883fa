-- ===== src/Tests/Texts.antt =====
-- The theorems on depth filters and on the trap-flag call stack at concrete inputs.
use vd_trace.Base.{◌≡◌, refl, true, false, [], ◌∷◌, Option, some, arith, All}
use vd_trace.Autostart.{
  lookup, run_lines, pop_return, last_or, assign, adjust, open_section, text_eq,
  parse_auto_start_ini_text, get_auto_start_value, or_fallback, read_lines, split_lines,
}
use vd_trace.Autostart.Values.{last_value, get-parse}
use vd_trace.Session.{
  Text, ModuleRange, ResolvedDepthFilterSet, trap_flag, edge, unlimited_call_depth,
}
use vd_trace.Regions.{find_module_range, upper_bound_prev}
use vd_trace.DepthFilter.{
  trim_depth_text, drop_blank_end, skip_blanks, is_blank, split_depth_filter_tokens,
  parse_depth_mode_value, split_mode, split_last_colon, parse_execution_mode_value, same_letters,
  c_str, parse_depth_value, wcstoull, skip_spaces, digits_value,
}
use vd_trace.DepthFilter.Rules.{
  done, parse_tokens, parse_token, starts_with_insensitive, add_or_replace_module_rule, all_aligned,
  insert_rule, parse_module_rule, resolve_rules, sort_rules, parse_depth_filter_spec,
}
use vd_trace.DepthFilter.Rules.Order.{IsResolved, parse-IsResolved}
use vd_trace.DepthFilter.Tokens.{
  joined, solid_part, IsToken, split_depth_filter_tokens-joined, split_depth_filter_tokens-IsToken,
}
use vd_trace.DepthFilter.Values.{print_depth_mode, parse_depth_mode_value-printed}
use vd_trace.Tests.{program_module, library_module}

-- outside=3:tf;module=x:2
abbrev some_spec : Text
some_spec =
    111 ∷ 117 ∷ 116 ∷ 115 ∷ 105 ∷ 100 ∷ 101 ∷ 61 ∷ 51 ∷ 58 ∷ 116 ∷ 102 ∷ 59 ∷ 109 ∷ 111 ∷ 100 ∷ 117
    ∷ 108 ∷ 101 ∷ 61 ∷ 120 ∷ 58 ∷ 50 ∷ []

abbrev a_module : ModuleRange
a_module = record { name = 120 ∷ []; base = 0x7000; size = 0x1000 }

-- Every name is that of one loaded module.
abbrev resolve_any : Text → Option ModuleRange
resolve_any name = some a_module

abbrev parsed_filters : ResolvedDepthFilterSet
parsed_filters = record {
  module_rules = record { range = a_module; max_call_depth = 2; execution_mode = edge } ∷ [];
  has_outside_module_depth = true;
  outside_module_depth = 3;
  outside_module_execution_mode = trap_flag;
  has_anonymous_exec_depth = false;
  anonymous_exec_depth = unlimited_call_depth;
  anonymous_exec_execution_mode = edge;
}

parses_spec :
    parse_depth_filter_spec resolve_any (program_module ∷ []) (library_module ∷ []) some_spec
    ≡ done parsed_filters
unfolding parse_depth_filter_spec trim_depth_text drop_blank_end skip_blanks is_blank
    split_depth_filter_tokens parse_depth_mode_value split_mode split_last_colon
    parse_execution_mode_value same_letters c_str parse_depth_value wcstoull skip_spaces
    digits_value parse_tokens parse_token starts_with_insensitive add_or_replace_module_rule
    all_aligned insert_rule parse_module_rule resolve_rules sort_rules find_module_range
    upper_bound_prev
parses_spec = refl

parse-IsResolved_example :
    IsResolved resolve_any (program_module ∷ []) (library_module ∷ []) parsed_filters.module_rules
parse-IsResolved_example =
    parse-IsResolved resolve_any (program_module ∷ []) (library_module ∷ []) some_spec
      parsed_filters parses_spec

parse_depth_mode_value-printed_example :
    parse_depth_mode_value (print_depth_mode 42 trap_flag) ≡ some (42, trap_flag)
parse_depth_mode_value-printed_example = parse_depth_mode_value-printed 42 trap_flag (omega arith)

-- a, ;b
abbrev some_text : Text
some_text = 97 ∷ 44 ∷ 32 ∷ 59 ∷ 98 ∷ []

split_depth_filter_tokens-joined_example :
    joined (split_depth_filter_tokens some_text) ≡ solid_part some_text
split_depth_filter_tokens-joined_example = split_depth_filter_tokens-joined some_text

split_depth_filter_tokens-IsToken_example : All IsToken (split_depth_filter_tokens some_text)
split_depth_filter_tokens-IsToken_example = split_depth_filter_tokens-IsToken some_text

-- [a] k=1 k = 2, each on its line
abbrev ini_text : Text
ini_text = 91 ∷ 97 ∷ 93 ∷ 10 ∷ 107 ∷ 61 ∷ 49 ∷ 10 ∷ 107 ∷ 32 ∷ 61 ∷ 32 ∷ 50 ∷ 13 ∷ 10 ∷ []

get-parse_example :
    get_auto_start_value (parse_auto_start_ini_text ini_text) (97 ∷ []) (107 ∷ []) []
    ≡ or_fallback [] (last_value (read_lines (split_lines ini_text)) [] (97 ∷ []) (107 ∷ []))
get-parse_example = get-parse ini_text (97 ∷ []) (107 ∷ []) []

ini_text_reads_two :
    get_auto_start_value (parse_auto_start_ini_text ini_text) (97 ∷ []) (107 ∷ []) [] ≡ 50 ∷ []
unfolding get_auto_start_value lookup parse_auto_start_ini_text run_lines read_lines split_lines
    drop_blank_end skip_blanks pop_return is_blank last_or assign adjust open_section text_eq
ini_text_reads_two = refl
