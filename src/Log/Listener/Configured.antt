-- ===== src/Log/Listener/Configured.antt =====
-- What the listener makes of the logger of one definition.
use cpp_linux_server_frame.Base.{
  ℕ, ◌≡◌, refl, ap, sym, ◌∙◌, inl, inr, false, List, [], ◌∷◌, ◌++◌, append_assoc, append-nil, map,
  Option, none, some, if◌then◌else◌, Option-cases, branch,
}
use mathlib.Core.List.{map-append}
use cpp_linux_server_frame.Log.Pattern.{LogFormatter, new_formatter}
use cpp_linux_server_frame.Log.Loggers.{
  Target, LogAppender, new_appender, set_own_formatter, set_own_format, accepted, Logger, adopted,
  add_appender, clear_appenders, set_formatter, set_format,
}
use cpp_linux_server_frame.Log.Loggers.Laws.{Follows, operations-Follows}
use cpp_linux_server_frame.Log.Listener.{
  LogAppenderDefine, LogDefine, target_of, is_empty, appender_for, add_appenders, configure,
}

-- Every appender has a known type.
abbrev pub AllKnown : List LogAppenderDefine → Type 0
AllKnown [] = Unit {0}
AllKnown (d ∷ l) = ((t : Target) × (target_of d ≡ some t)) × AllKnown l

abbrev pub AllKnownIn : List LogDefine → Type 0
AllKnownIn [] = Unit {0}
AllKnownIn (d ∷ l) = AllKnown d.appenders × AllKnownIn l

abbrev targets : List LogAppender → List (Option Target)
targets l = map (λ (a : LogAppender). some a.target) l

abbrev levels : List LogAppender → List ℕ
levels l = map (λ (a : LogAppender). a.level) l

-- A logger as its definition wants it: the level, an appender of the right target and level for each
-- of the definition, in order, and every appender prints in its own format or the logger's.
pub record IsFor (d : LogDefine) (l : Logger) : Type 0 where
  pub level : l.level ≡ d.level
  pub targets_are : targets l.appenders ≡ map target_of d.appenders
  pub levels_are : levels l.appenders ≡ map (λ (x : LogAppenderDefine). x.level) d.appenders
  pub follows : Follows l

record IsFresh (t : Target) (level : ℕ) (a : LogAppender) : Type 0 where
  target_is : a.target ≡ t
  level_is : a.level ≡ level
  free : a.has_formatter ≡ false → a.formatter ≡ none

own-IsFresh :
    (t : Target) (level : ℕ) (a : LogAppender) (x : Option LogFormatter)
    → IsFresh t level a
    → IsFresh t level (set_own_formatter a x)
unfolding set_own_formatter
own-IsFresh t level a none f = f
own-IsFresh t level a (some x) f = record {
  target_is = f.target_is;
  level_is = f.level_is;
  free = λ e. cc;
}

appender_for-IsFresh : (d : LogAppenderDefine) (t : Target) → IsFresh t d.level (appender_for d t)
unfolding set_own_format
appender_for-IsFresh d t =
    let a : LogAppender = record (new_appender t) { level = d.level } in
    let f : IsFresh t d.level a = record { target_is = refl; level_is = refl; free = λ e. refl } in
    branch (IsFresh t d.level) (is_empty d.formatter) a (set_own_format a d.formatter) (λ e. f)
      (λ e. own-IsFresh t d.level a (accepted (new_formatter d.formatter)) f)

adopted-same :
    (l : Logger) (a : LogAppender)
    → ((adopted l a).target ≡ a.target) × ((adopted l a).level ≡ a.level)
adopted-same l a = elim (Option-cases a.formatter) [
  | inl e ↦ rw e (refl, refl)
  | inr (f, e) ↦ rw e (refl, refl)
]

-- What the loop over the appenders makes of a logger.
record Extends (ds : List LogAppenderDefine) (l l' : Logger) : Type 0 where
  added : add_appenders ds l ≡ some l'
  same_level : l'.level ≡ l.level
  more_targets : targets l'.appenders ≡ targets l.appenders ++ map target_of ds
  more_levels :
      levels l'.appenders ≡ levels l.appenders ++ map (λ (x : LogAppenderDefine). x.level) ds
  follows : Follows l'

-- What adding one appender does.
record Adds (d : LogAppenderDefine) (t : Target) (l l' : Logger) : Type 0 where
  same_level : l'.level ≡ l.level
  one_target : targets l'.appenders ≡ targets l.appenders ++ some t ∷ []
  one_level : levels l'.appenders ≡ levels l.appenders ++ d.level ∷ []
  follows : Follows l → Follows l'

add_appender-Adds :
    (d : LogAppenderDefine) (t : Target) (l : Logger) (a : LogAppender)
    → IsFresh t d.level a
    → Adds d t l (add_appender l a)
unfolding add_appender
add_appender-Adds d t l a f = record {
  same_level = refl;
  one_target =
      map-append (λ (x : LogAppender). some x.target) l.appenders (adopted l a ∷ [])
      ∙ ap (λ (x : Target). targets l.appenders ++ some x ∷ [])
          ((adopted-same l a).0 ∙ f.target_is);
  one_level =
      map-append (λ (x : LogAppender). x.level) l.appenders (adopted l a ∷ [])
      ∙ ap (λ (x : ℕ). levels l.appenders ++ x ∷ []) ((adopted-same l a).1 ∙ f.level_is);
  follows = λ h. (operations-Follows l none a 0).2.1 (h, λ own n. absurd (n (f.free own)));
}

-- A list that grows by one element and then by others.
regroup {ℓ} :
    {A : Type ℓ} (xs ys zs : List A) (a b : A) (rest : List A)
    → zs ≡ ys ++ rest
    → ys ≡ xs ++ a ∷ []
    → a ≡ b
    → zs ≡ xs ++ b ∷ rest
regroup xs ys zs a b rest h k e =
    h ∙ ap (λ t. t ++ rest) k ∙ append_assoc xs (a ∷ []) rest ∙ ap (λ t. xs ++ t ∷ rest) e

add_appenders-Extends :
    (ds : List LogAppenderDefine) (l : Logger)
    → AllKnown ds
    → Follows l
    → (l' : Logger) × Extends ds l l'
unfolding add_appenders
add_appenders-Extends [] l k f = (
  l,
  record {
    added = refl;
    same_level = refl;
    more_targets = sym (append-nil (targets l.appenders));
    more_levels = sym (append-nil (levels l.appenders));
    follows = f;
  },
)
add_appenders-Extends (d ∷ ds) l ((t, e), k) f =
    let a = appender_for d t in
    let s = add_appender-Adds d t l a (appender_for-IsFresh d t) in
    let (l', x) = add_appenders-Extends ds (add_appender l a) k (s.follows f) in
    (
      l',
      record {
        added = rw (e, add_appenders) x.added;
        same_level = x.same_level ∙ s.same_level;
        more_targets =
            regroup (targets l.appenders) (targets (add_appender l a).appenders)
              (targets l'.appenders) (some t) (target_of d) (map target_of ds) x.more_targets
              s.one_target (sym e);
        more_levels =
            regroup (levels l.appenders) (levels (add_appender l a).appenders) (levels l'.appenders)
              d.level d.level (map (λ (y : LogAppenderDefine). y.level) ds) x.more_levels
              s.one_level refl;
        follows = x.follows;
      },
    )

set_format_level : (l : Logger) (text : List ℕ) → (set_format l text).level ≡ l.level
unfolding set_format set_formatter
set_format_level l text = elim (Option-cases (accepted (new_formatter text))) [
  | inl e ↦ rw e refl
  | inr (f, e) ↦ rw e refl
]

pub configure-IsFor :
    (d : LogDefine) (l : Logger)
    → AllKnown d.appenders
    → (l' : Logger) × (configure d l ≡ some l') × IsFor d l'
unfolding configure
configure-IsFor d l k =
    let l1 : Logger = record l { level = d.level } in
    let l2 : Logger = if is_empty d.formatter then l1 else set_format l1 d.formatter in
    let same : l2.level ≡ d.level =
      branch (λ (x : Logger). x.level ≡ d.level) (is_empty d.formatter) l1
        (set_format l1 d.formatter) (λ e. refl) (λ e. set_format_level l1 d.formatter) in
    let (l', x) = add_appenders-Extends d.appenders (clear_appenders l2) k tt in
    (
      l',
      x.added,
      record {
        level = x.same_level ∙ same;
        targets_are = x.more_targets;
        levels_are = x.more_levels;
        follows = x.follows;
      },
    )
