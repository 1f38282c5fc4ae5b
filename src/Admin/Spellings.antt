-- ===== src/Admin/Spellings.antt =====
-- The ways to write the `command` option on the command line of the admin tool `prun`.
use prun.Base.{
  ◌≡◌, ◌≢◌, refl, List, [], ◌∷◌, ◌++◌, Text, codes, append_assoc, append-nil, sym, ◌∙◌, ap,
}
use prun.Admin.Options.{
  Options, options, default_options, set_command, positional, operand, classify, parse_args,
  parse_opt,
}

-- `-c v`, `-cv`, `--command v` and `--command=v`
pub data Spelling : Type 0 where
  short_next short_joined long_next long_joined : Spelling

abbrev pub spell : Spelling → Text → List Text
spell short_next v = codes "-c" ∷ v ∷ []
spell short_joined v = (codes "-c" ++ v) ∷ []
spell long_next v = codes "--command" ∷ v ∷ []
spell long_joined v = (codes "--command=" ++ v) ∷ []

-- A value may be empty but where it would leave nothing behind `-c`.
abbrev pub Fits : Spelling → Text → Type 0
Fits short_joined v = v ≢ []
Fits _ v = Unit

parse_args-spell :
    (sp : Spelling) (v : Text) (rest : List Text) (o : Options)
    → Fits sp v
    → parse_args (spell sp v ++ rest) o ≡ parse_args rest (set_command v o)
unfolding parse_args classify
parse_args-spell short_next v rest o h = refl
parse_args-spell short_joined [] rest o h = absurd (h refl)
parse_args-spell short_joined (c ∷ v) [] o h = refl
parse_args-spell short_joined (c ∷ v) (r ∷ rest) o h = refl
parse_args-spell long_next v rest o h = refl
parse_args-spell long_joined v [] o h = refl
parse_args-spell long_joined v (r ∷ rest) o h = refl

abbrev pub Choice : Type 0
Choice = Spelling × Text

abbrev pub spell_all : List Choice → List Text
spell_all [] = []
spell_all ((sp, v) ∷ cs) = spell sp v ++ spell_all cs

abbrev pub AllFit : List Choice → Type 0
AllFit [] = Unit
AllFit ((sp, v) ∷ cs) = Fits sp v × AllFit cs

abbrev pub set_commands : List Choice → Options → Options
set_commands [] o = o
set_commands ((sp, v) ∷ cs) o = set_commands cs (set_command v o)

parse_args-operand :
    (host : Text) (rest : List Text) (o : Options)
    → classify host ≡ operand
    → parse_args (host ∷ rest) o ≡ positional (host ∷ rest) o
unfolding parse_args
parse_args-operand host [] o h = rw (h, parse_args)
parse_args-operand host (r ∷ rest) o h = rw (h, parse_args)

parse_args-spell_all :
    (cs : List Choice) (host : Text) (rest : List Text) (o : Options)
    → AllFit cs
    → classify host ≡ operand
    → parse_args (spell_all cs ++ host ∷ rest) o
      ≡ options (record (set_commands cs o) { master_host = host })
parse_args-spell_all [] host rest o h k = parse_args-operand host rest o k
parse_args-spell_all ((sp, v) ∷ cs) host rest o h k =
    ap (λ l. parse_args l o) (append_assoc (spell sp v) (spell_all cs) (host ∷ rest))
    ∙ parse_args-spell sp v (spell_all cs ++ host ∷ rest) o h.0
    ∙ parse_args-spell_all cs host rest (set_command v o) h.1 k

-- The values in order, and the last of them
abbrev pub values : List Choice → List Text
values [] = []
values ((sp, v) ∷ cs) = v ∷ values cs

abbrev pub last_or : Text → List Text → Text
last_or d [] = d
last_or d (v ∷ vs) = last_or v vs

set_commands-values :
    (cs : List Choice) (o : Options)
    → set_commands cs o ≡ record {
      master_host = o.master_host;
      command = last_or o.command (values cs);
      printed = o.printed ++ values cs;
    }
set_commands-values [] o = ap (λ l. record o { printed = l }) (sym (append-nil o.printed))
set_commands-values ((sp, v) ∷ cs) o =
    set_commands-values cs (set_command v o)
    ∙ ap (λ l. record o { command = last_or v (values cs); printed = l })
        (append_assoc o.printed (v ∷ []) (values cs))

-- On any number of `command` options, each in any of its four spellings, before a host that does
-- not look like an option, parse_opt takes that host and the last of the values, or no command if
-- there is none, and prints all values in order; what follows the host is ignored.
pub parse_opt-spell_all :
    (cs : List Choice) (host : Text) (rest : List Text)
    → AllFit cs
    → classify host ≡ operand
    → parse_opt (spell_all cs ++ host ∷ rest)
      ≡ options
          (record { master_host = host; command = last_or [] (values cs); printed = values cs })
unfolding parse_opt
parse_opt-spell_all cs host rest h k =
    parse_args-spell_all cs host rest default_options h k
    ∙ ap (λ (o : Options). options (record o { master_host = host }))
        (set_commands-values cs default_options)
