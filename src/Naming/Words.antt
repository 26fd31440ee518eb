-- ===== src/Naming/Words.antt =====
-- src/dbextractors/core/_reserved_words.py: the 825 reserved words, in the order of the source.
mod First
mod Second
mod Third
mod Fourth
mod Fifth
mod Sixth
use dbextractors.Base.{String, List, ◌++◌}
use First.{first_words}
use Second.{second_words}
use Third.{third_words}
use Fourth.{fourth_words}
use Fifth.{fifth_words}
use Sixth.{sixth_words}

unfoldable pub sql_reserved_words : List String
unfolding first_words second_words third_words fourth_words fifth_words sixth_words
sql_reserved_words =
    first_words
    ++ (second_words ++ (third_words ++ (fourth_words ++ (fifth_words ++ (sixth_words)))))
