-- ===== src/Naming/Words/Fifth.antt =====
-- Lines 572 to 709 of src/dbextractors/core/_reserved_words.py.
use dbextractors.Base.{String, List, [], ◌∷◌}

unfoldable pub fifth_words : List String
fifth_words =
    "RANK" ∷ "RAW" ∷ "READ" ∷ "READS" ∷ "READTEXT" ∷ "REAL" ∷ "RECHECK" ∷ "RECONFIGURE"
    ∷ "RECURSIVE" ∷ "REF" ∷ "REFERENCES" ∷ "REFERENCING" ∷ "REGEXP" ∷ "REGR_AVGX" ∷ "REGR_AVGY"
    ∷ "REGR_COUNT" ∷ "REGR_INTERCEPT" ∷ "REGR_R2" ∷ "REGR_SLOPE" ∷ "REGR_SXX" ∷ "REGR_SXY"
    ∷ "REGR_SYY" ∷ "REINDEX" ∷ "RELATIVE" ∷ "RELEASE" ∷ "RELOAD" ∷ "RENAME" ∷ "REPEAT"
    ∷ "REPEATABLE" ∷ "REPLACE" ∷ "REPLICATION" ∷ "REQUIRE" ∷ "RESET" ∷ "RESIGNAL" ∷ "RESOURCE"
    ∷ "RESTART" ∷ "RESTORE" ∷ "RESTRICT" ∷ "RESULT" ∷ "RETURN" ∷ "RETURNED_CARDINALITY"
    ∷ "RETURNED_LENGTH" ∷ "RETURNED_OCTET_LENGTH" ∷ "RETURNED_SQLSTATE" ∷ "RETURNS" ∷ "REVOKE"
    ∷ "RIGHT" ∷ "RLIKE" ∷ "ROLE" ∷ "ROLLBACK" ∷ "ROLLUP" ∷ "ROUTINE" ∷ "ROUTINE_CATALOG"
    ∷ "ROUTINE_NAME" ∷ "ROUTINE_SCHEMA" ∷ "ROW" ∷ "ROW_COUNT" ∷ "ROW_NUMBER" ∷ "ROWCOUNT"
    ∷ "ROWGUIDCOL" ∷ "ROWID" ∷ "ROWNUM" ∷ "ROWS" ∷ "RULE" ∷ "SAVE" ∷ "SAVEPOINT" ∷ "SCALE"
    ∷ "SCHEMA" ∷ "SCHEMA_NAME" ∷ "SCHEMAS" ∷ "SCOPE" ∷ "SCOPE_CATALOG" ∷ "SCOPE_NAME"
    ∷ "SCOPE_SCHEMA" ∷ "SCROLL" ∷ "SEARCH" ∷ "SECOND" ∷ "SECOND_MICROSECOND" ∷ "SECTION"
    ∷ "SECURITY" ∷ "SELECT" ∷ "SELF" ∷ "SENSITIVE" ∷ "SEPARATOR" ∷ "SEQUENCE" ∷ "SERIALIZABLE"
    ∷ "SERVER_NAME" ∷ "SESSION" ∷ "SESSION_USER" ∷ "SET" ∷ "SETOF" ∷ "SETS" ∷ "SETUSER" ∷ "SHARE"
    ∷ "SHOW" ∷ "SHUTDOWN" ∷ "SIGNAL" ∷ "SIMILAR" ∷ "SIMPLE" ∷ "SIZE" ∷ "SMALLINT" ∷ "SOME"
    ∷ "SONAME" ∷ "SOURCE" ∷ "SPACE" ∷ "SPATIAL" ∷ "SPECIFIC" ∷ "SPECIFIC_NAME" ∷ "SPECIFICTYPE"
    ∷ "SQL" ∷ "SQL_BIG_RESULT" ∷ "SQL_BIG_SELECTS" ∷ "SQL_BIG_TABLES" ∷ "SQL_CALC_FOUND_ROWS"
    ∷ "SQL_LOG_OFF" ∷ "SQL_LOG_UPDATE" ∷ "SQL_LOW_PRIORITY_UPDATES" ∷ "SQL_SELECT_LIMIT"
    ∷ "SQL_SMALL_RESULT" ∷ "SQL_WARNINGS" ∷ "SQLCA" ∷ "SQLCODE" ∷ "SQLERROR" ∷ "SQLEXCEPTION"
    ∷ "SQLSTATE" ∷ "SQLWARNING" ∷ "SQRT" ∷ "SSL" ∷ "STABLE" ∷ "START" ∷ "STARTING" ∷ "STATE"
    ∷ "STATEMENT" ∷ "STATIC" ∷ "STATISTICS" ∷ "STATUS" ∷ "STDDEV_POP" ∷ "STDDEV_SAMP" ∷ []
