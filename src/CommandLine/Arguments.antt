-- ===== src/CommandLine/Arguments.antt =====
-- main.c: options written as arguments, and read back.
use hierarchical_monitors.Prelude.{
  ℕ, ◌≡◌, refl, ◌∙◌, Bool, true, false, none, some, List, [], ◌∷◌, codes, same_string,
  if◌then◌else◌,
}
use hierarchical_monitors.Prelude.Int.{ℤ, pos, negsuc}
use hierarchical_monitors.CommandLine.{
  Setting, Settings, PerfOption, int_value, str_value, parsed, input_opt, refresh_opt, help_opt,
  pid_opt, display_opt, restrict_opt, plugins_opt, perf_opt, all_options, negate, set_option,
  is_named, set_first, not_option, read_options,
}

abbrev pub with_setting : PerfOption → Setting → PerfOption
with_setting opt s = record opt { value = s.value; is_set = s.is_set }

-- The options of `main` with these settings.
abbrev pub options_of : Settings → List PerfOption
options_of s =
    with_setting input_opt s.input
    ∷ with_setting refresh_opt s.frequency
    ∷ with_setting help_opt s.help
    ∷ with_setting pid_opt s.pid
    ∷ with_setting display_opt s.display
    ∷ with_setting restrict_opt s.restrict
    ∷ with_setting plugins_opt s.plugins
    ∷ with_setting perf_opt s.perf
    ∷ []

abbrev pub number : ℤ → Setting
number n = record { value = int_value n; is_set = false }

abbrev pub no_text : Setting
no_text = record { value = str_value none; is_set = false }

abbrev pub defaults : Settings
defaults = record {
  input = no_text;
  frequency = number (pos 100000);
  help = number (pos 0);
  pid = number (negsuc 0);
  display = number (pos 0);
  restrict = no_text;
  plugins = number (pos 0);
  perf = no_text;
}

-- What a user asks for.
pub data Choice : Type 0 where
  choose_input choose_frequency choose_pid choose_restrict choose_perf : List ℕ → Choice
  choose_help choose_display choose_plugins : Choice

abbrev pub text_setting : List ℕ → Setting
text_setting text = record { value = str_value (some text); is_set = true }

abbrev pub number_setting : ℤ → Setting
number_setting n = record { value = int_value n; is_set = true }

abbrev pub toggled : Setting → Setting
toggled s = record { value = negate s.value; is_set = true }

abbrev pub choose : (List ℕ → ℤ) → Settings → Choice → Settings
choose atoi s (choose_input text) = record s { input = text_setting text }
choose atoi s (choose_frequency text) = record s { frequency = number_setting (atoi text) }
choose atoi s (choose_pid text) = record s { pid = number_setting (atoi text) }
choose atoi s (choose_restrict text) = record s { restrict = text_setting text }
choose atoi s (choose_perf text) = record s { perf = text_setting text }
choose atoi s choose_help = record s { help = toggled s.help }
choose atoi s choose_display = record s { display = toggled s.display }
choose atoi s choose_plugins = record s { plugins = toggled s.plugins }

abbrev pub choose_all : (List ℕ → ℤ) → Settings → List (Bool × Choice) → Settings
choose_all atoi s [] = s
choose_all atoi s ((short, c) ∷ cs) = choose_all atoi (choose atoi s c) cs

-- The arguments for a choice, by the option's short or long name.
abbrev pub written : Bool → PerfOption → List ℕ
written short opt = if short then opt.short_name else opt.name

abbrev pub arguments : Bool → Choice → List (List ℕ) → List (List ℕ)
arguments short (choose_input text) rest = written short input_opt ∷ text ∷ rest
arguments short (choose_frequency text) rest = written short refresh_opt ∷ text ∷ rest
arguments short (choose_pid text) rest = written short pid_opt ∷ text ∷ rest
arguments short (choose_restrict text) rest = written short restrict_opt ∷ text ∷ rest
arguments short (choose_perf text) rest = written short perf_opt ∷ text ∷ rest
arguments short choose_help rest = written short help_opt ∷ rest
arguments short choose_display rest = written short display_opt ∷ rest
arguments short choose_plugins rest = written short plugins_opt ∷ rest

abbrev pub all_arguments : List (Bool × Choice) → List (List ℕ) → List (List ℕ)
all_arguments [] rest = rest
all_arguments ((short, c) ∷ cs) rest = arguments short c (all_arguments cs rest)

module _ (atoi : List ℕ → ℤ) where
  read_one :
      (s : Settings) (short : Bool) (c : Choice) (rest : List (List ℕ))
      → read_options atoi (options_of s) (arguments short c rest)
        ≡ read_options atoi (options_of (choose atoi s c)) rest
  unfolding read_options set_first set_option is_named same_string negate
  read_one s true (choose_input text) rest = refl
  read_one s false (choose_input text) rest = refl
  read_one s true (choose_frequency text) rest = refl
  read_one s false (choose_frequency text) rest = refl
  read_one s true (choose_pid text) rest = refl
  read_one s false (choose_pid text) rest = refl
  read_one s true (choose_restrict text) rest = refl
  read_one s false (choose_restrict text) rest = refl
  read_one s true (choose_perf text) rest = refl
  read_one s false (choose_perf text) rest = refl
  read_one s true choose_help [] = refl
  read_one s true choose_help (x ∷ xs) = refl
  read_one s false choose_help [] = refl
  read_one s false choose_help (x ∷ xs) = refl
  read_one s true choose_display [] = refl
  read_one s true choose_display (x ∷ xs) = refl
  read_one s false choose_display [] = refl
  read_one s false choose_display (x ∷ xs) = refl
  read_one s true choose_plugins [] = refl
  read_one s true choose_plugins (x ∷ xs) = refl
  read_one s false choose_plugins [] = refl
  read_one s false choose_plugins (x ∷ xs) = refl

  read_choices :
      (cs : List (Bool × Choice)) (s : Settings) (rest : List (List ℕ))
      → read_options atoi (options_of s) (all_arguments cs rest)
        ≡ read_options atoi (options_of (choose_all atoi s cs)) rest
  read_choices [] s rest = refl
  read_choices ((short, c) ∷ cs) s rest =
      read_one s short c (all_arguments cs rest) ∙ read_choices cs (choose atoi s c) rest

  read_program :
      (s : Settings) (program : List (List ℕ))
      → read_options atoi (options_of s) (codes "--" ∷ program) ≡ parsed (options_of s) program
  unfolding read_options set_first set_option is_named same_string not_option
  read_program s [] = refl
  read_program s (name ∷ arguments_of) = refl

  -- Options in any number and order, each written by its long or its short name and followed by its
  -- text if it takes one, are read back: each option has the value of its last text, each switch is
  -- toggled once for each time that it is there, all others keep their defaults, and a program that
  -- follows behind `--` is found with its arguments.
  pub read_arguments :
      (cs : List (Bool × Choice)) (program : List (List ℕ))
      → (read_options atoi all_options (all_arguments cs (codes "--" ∷ program))
          ≡ parsed (options_of (choose_all atoi defaults cs)) program)
        × (read_options atoi all_options (all_arguments cs [])
            ≡ parsed (options_of (choose_all atoi defaults cs)) [])
  unfolding read_options
  read_arguments cs program = (
    read_choices cs defaults (codes "--" ∷ program)
        ∙ read_program (choose_all atoi defaults cs) program,
    read_choices cs defaults [],
  )
