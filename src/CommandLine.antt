-- ===== src/CommandLine.antt =====
-- main.c: the options of the command `hmon`, and how it reads its arguments. The C library's atoi is a
-- parameter, and a string is the codes of its characters.
pub mod Arguments
pub mod Run
use hierarchical_monitors.Prelude.{
  ℕ, zero, suc, Bool, true, false, Option, none, some, List, [], ◌∷◌, ◌||◌, ◌==◌, if◌then◌else◌,
  codes, same_string,
}
use hierarchical_monitors.Prelude.Int.{ℤ, pos, negsuc}

-- OPT_TYPE_INT, OPT_TYPE_STRING and OPT_TYPE_BOOL
pub data OptType : Type 0 where
  opt_int opt_string opt_bool : OptType

-- `union perf_option_value`
pub data Value : Type 0 where
  int_value : ℤ → Value
  str_value : Option (List ℕ) → Value

-- `struct perf_option`, less its texts for the user.
pub record PerfOption : Type 0 where
  pub name : List ℕ
  pub short_name : List ℕ
  pub type : OptType
  pub value : Value
  pub is_set : Bool

abbrev pub input_opt : PerfOption
input_opt = record {
  name = codes "--input";
  short_name = codes "-i";
  type = opt_string;
  value = str_value none;
  is_set = false;
}

abbrev pub refresh_opt : PerfOption
refresh_opt = record {
  name = codes "--frequency";
  short_name = codes "-f";
  type = opt_int;
  value = int_value (pos 100000);
  is_set = false;
}

abbrev pub help_opt : PerfOption
help_opt = record {
  name = codes "--help";
  short_name = codes "-h";
  type = opt_bool;
  value = int_value (pos 0);
  is_set = false;
}

abbrev pub pid_opt : PerfOption
pid_opt = record {
  name = codes "--pid";
  short_name = codes "-p";
  type = opt_int;
  value = int_value (negsuc 0);
  is_set = false;
}

abbrev pub display_opt : PerfOption
display_opt = record {
  name = codes "--display-topology";
  short_name = codes "-d";
  type = opt_bool;
  value = int_value (pos 0);
  is_set = false;
}

abbrev pub restrict_opt : PerfOption
restrict_opt = record {
  name = codes "--restrict";
  short_name = codes "-r";
  type = opt_string;
  value = str_value none;
  is_set = false;
}

abbrev pub plugins_opt : PerfOption
plugins_opt = record {
  name = codes "--list-plugins";
  short_name = codes "-l";
  type = opt_bool;
  value = int_value (pos 0);
  is_set = false;
}

abbrev pub perf_opt : PerfOption
perf_opt = record {
  name = codes "--perf-event";
  short_name = codes "-pe";
  type = opt_string;
  value = str_value none;
  is_set = false;
}

-- `options`, in the order in which `main` looks through them.
abbrev pub all_options : List PerfOption
all_options =
    input_opt ∷ refresh_opt ∷ help_opt ∷ pid_opt ∷ display_opt ∷ restrict_opt ∷ plugins_opt
    ∷ perf_opt ∷ []

-- What an option has been set to.
pub record Setting : Type 0 where
  pub value : Value
  pub is_set : Bool

pub record Settings : Type 0 where
  pub input : Setting
  pub frequency : Setting
  pub help : Setting
  pub pid : Setting
  pub display : Setting
  pub restrict : Setting
  pub plugins : Setting
  pub perf : Setting

-- `!value.int_value`, of an option that has a number.
unfoldable pub negate : Value → Value
negate (int_value (pos n)) = int_value (if n == 0 then pos 1 else pos 0)
negate (int_value (negsuc n)) = int_value (pos 0)
negate (str_value s) = str_value s

-- What `main` finds in its arguments: the options, and the program to run with its arguments, none if
-- there is no program; or an argument that it does not know.
pub data Parsed : Type 0 where
  parsed : List PerfOption → List (List ℕ) → Parsed
  bad_option : List ℕ → Parsed

module _ (atoi : List ℕ → ℤ) where
  -- How many arguments the option took, and the option.
  unfoldable pub set_option : PerfOption → Option (List ℕ) → ℕ × PerfOption
  set_option opt val = elim opt.type [
    | opt_int ↦ elim val [
      | some text ↦ (1, record opt { value = int_value (atoi text); is_set = true })
      | none ↦ (1, record opt { is_set = true })
    ]
    | opt_bool ↦ (0, record opt { is_set = true; value = negate opt.value })
    | opt_string ↦ elim val [
      | some text ↦ (1, record opt { is_set = true; value = str_value (some text) })
      | none ↦ (0, record opt { is_set = true })
    ]
  ]

  unfoldable pub is_named : List ℕ → PerfOption → Bool
  is_named arg opt = same_string arg opt.name || same_string arg opt.short_name

  -- The loop over the options, up to the first that the argument names.
  unfoldable pub set_first :
      List PerfOption → List ℕ → Option (List ℕ) → Option (ℕ × List PerfOption)
  set_first [] arg val = none
  set_first (opt ∷ opts) arg val =
      let later : Option (ℕ × List PerfOption) = elim (set_first opts arg val) [
        | none ↦ none
        | some (taken, rest) ↦ some (taken, opt ∷ rest)
      ] in
      let (taken, set) = set_option opt val in
      if is_named arg opt then some (taken, set ∷ opts) else later

  -- An argument that is no option: it is followed by the program, or not known.
  unfoldable pub not_option : List PerfOption → List ℕ → List (List ℕ) → Parsed
  not_option opts arg rest =
      if same_string arg (codes "--") then parsed opts rest else bad_option arg

  -- The loop over the arguments. An option that takes an argument where there is none ends it.
  unfoldable pub read_options : List PerfOption → List (List ℕ) → Parsed
  read_options opts [] = parsed opts []
  read_options opts (arg ∷ []) = elim (set_first opts arg none) [
    | none ↦ not_option opts arg []
    | some (taken, set) ↦ parsed set []
  ]
  read_options opts (arg ∷ val ∷ rest) = elim (set_first opts arg (some val)) [
    | none ↦ not_option opts arg (val ∷ rest)
    | some (zero, set) ↦ read_options set (val ∷ rest)
    | some (suc n, set) ↦ read_options set rest
  ]

abbrev pub setting : PerfOption → Setting
setting opt = record { value = opt.value; is_set = opt.is_set }

-- The options by their names in `main`, of a list in the order of `all_options`.
unfoldable pub settings_of : List PerfOption → Option Settings
settings_of (i ∷ f ∷ h ∷ p ∷ d ∷ r ∷ l ∷ e ∷ []) = some (record {
  input = setting i;
  frequency = setting f;
  help = setting h;
  pid = setting p;
  display = setting d;
  restrict = setting r;
  plugins = setting l;
  perf = setting e;
})
settings_of _ = none
