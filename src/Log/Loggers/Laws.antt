-- ===== src/Log/Loggers/Laws.antt =====
-- The formatters of a logger's appenders, and what a file keeps of what is logged to it.
use cpp_linux_server_frame.Base.{
  ℕ, zero, suc, ◌+◌, ◌^◌, ◌≤◌, ◌<◌, ◌≡◌, ◌≢◌, ◌↔◌, refl, Bool, true, false, List, [], ◌∷◌, ◌++◌,
  Option, none, some, map, branch, arith,
}
use cpp_linux_server_frame.Log.Pattern.{LogFormatter}
use cpp_linux_server_frame.Log.Loggers.{
  LogAppender, Logger, adopted, add_appender, without, del_appender, following, set_formatter,
  LogFile, reopen, log_to_file,
}

-- The appender has a formatter of its own, or that of the logger.
abbrev pub Agrees : Option LogFormatter → LogAppender → Type 0
Agrees f a = a.has_formatter ≡ false → a.formatter ≡ f

abbrev pub AllAgree : Option LogFormatter → List LogAppender → Type 0
AllAgree f [] = Unit {0}
AllAgree f (a ∷ l) = Agrees f a × AllAgree f l

abbrev pub Follows : Logger → Type 0
Follows l = AllAgree l.formatter l.appenders

AllAgree-append :
    (f : Option LogFormatter) (l : List LogAppender) (a : LogAppender)
    → AllAgree f (l ++ a ∷ []) ↔ (AllAgree f l × Agrees f a)
AllAgree-append f [] a = ((λ h. (tt, h.0)), (λ h. (h.1, tt)))
AllAgree-append f (b ∷ l) a =
    let (to, back) = AllAgree-append f l a in
    (λ h. ((h.0, (to h.1).0), (to h.1).1), λ h. (h.0.0, back (h.0.1, h.1)))

AllAgree-without :
    (f : Option LogFormatter) (l : List LogAppender) (i : ℕ)
    → AllAgree f l
    → AllAgree f (without l i)
AllAgree-without f [] i h = h
AllAgree-without f (a ∷ l) zero h = h.1
AllAgree-without f (a ∷ l) (suc i) h = (h.0, AllAgree-without f l i h.1)

following-Agrees : (f : Option LogFormatter) (a : LogAppender) → Agrees f (following f a)
following-Agrees f a =
    branch (Agrees f) a.has_formatter a (record a { formatter = f }) (λ own e. cc) (λ n e. refl)

AllAgree-following :
    (f : Option LogFormatter) (l : List LogAppender) → AllAgree f (map (following f) l)
AllAgree-following f [] = tt
AllAgree-following f (a ∷ l) = (following-Agrees f a, AllAgree-following f l)

-- An appender may be added without harm.
abbrev pub IsWelcome : Logger → LogAppender → Type 0
IsWelcome l a = a.has_formatter ≡ false → a.formatter ≢ none → a.formatter ≡ l.formatter

adopted-Agrees :
    (l : Logger) (a : LogAppender) (x : Option LogFormatter)
    → a.formatter ≡ x
    → Agrees l.formatter (adopted l a) ↔ IsWelcome l a
adopted-Agrees l a none e = ground arith
adopted-Agrees l a (some f) e = ground arith

-- setFormatter makes every appender without a formatter of its own use the logger's new one, and
-- delAppender keeps it so; addAppender keeps it so exactly if the appender has a formatter of its
-- own, or none yet, or the logger's: one that still has an earlier formatter of a logger does not
-- get the present one.
pub operations-Follows :
    (l : Logger) (f : Option LogFormatter) (a : LogAppender) (i : ℕ)
    → Follows (set_formatter l f)
      × (Follows l → Follows (del_appender l i))
      × (Follows (add_appender l a) ↔ (Follows l × IsWelcome l a))
unfolding set_formatter del_appender add_appender
operations-Follows l f a i =
    let (to, back) = AllAgree-append l.formatter l.appenders (adopted l a) in
    let (there, again) = adopted-Agrees l a a.formatter refl in
    (
      AllAgree-following f l.appenders,
      λ h. AllAgree-without l.formatter l.appenders i h,
      (λ h. ((to h).0, there (to h).1), λ h. back (h.0, again h.1)),
    )

-- Where a file has been opened at most at `t`, and can be opened, a message that is logged more than
-- three seconds after `t` is all that the file holds: what was logged at `t` is lost.
pub log_to_file-Loses :
    (t now : ℕ) (opens : Bool) (first second : List ℕ) (f : LogFile)
    → f.last_time ≤ t
    → t + 3 < now
    → now < 2 ^ 64
    → (log_to_file now true second (log_to_file t opens first f)).content ≡ second
unfolding log_to_file reopen
log_to_file-Loses t now opens first second f h k w = ground arith
