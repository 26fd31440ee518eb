-- ===== src/Naming/Words/Second.antt =====
-- Lines 158 to 295 of src/dbextractors/core/_reserved_words.py.
use dbextractors.Base.{String, List, [], ◌∷◌}

unfoldable pub second_words : List String
second_words =
    "CSV" ∷ "CUBE" ∷ "CUME_DIST" ∷ "CURRENT" ∷ "CURRENT_DATE" ∷ "CURRENT_DEFAULT_TRANSFORM_GROUP"
    ∷ "CURRENT_PATH" ∷ "CURRENT_ROLE" ∷ "CURRENT_TIME" ∷ "CURRENT_TIMESTAMP"
    ∷ "CURRENT_TRANSFORM_GROUP_FOR_TYPE" ∷ "CURRENT_USER" ∷ "CURSOR" ∷ "CURSOR_NAME" ∷ "CYCLE"
    ∷ "DATA" ∷ "DATABASE" ∷ "DATABASES" ∷ "DATE" ∷ "DATETIME" ∷ "DATETIME_INTERVAL_CODE"
    ∷ "DATETIME_INTERVAL_PRECISION" ∷ "DAY" ∷ "DAY_HOUR" ∷ "DAY_MICROSECOND" ∷ "DAY_MINUTE"
    ∷ "DAY_SECOND" ∷ "DAYOFMONTH" ∷ "DAYOFWEEK" ∷ "DAYOFYEAR" ∷ "DBCC" ∷ "DEALLOCATE" ∷ "DEC"
    ∷ "DECIMAL" ∷ "DECLARE" ∷ "DEFAULT" ∷ "DEFAULTS" ∷ "DEFERRABLE" ∷ "DEFERRED" ∷ "DEFINED"
    ∷ "DEFINER" ∷ "DEGREE" ∷ "DELAY_KEY_WRITE" ∷ "DELAYED" ∷ "DELETE" ∷ "DELIMITER" ∷ "DELIMITERS"
    ∷ "DENSE_RANK" ∷ "DENY" ∷ "DEPTH" ∷ "DEREF" ∷ "DERIVED" ∷ "DESC" ∷ "DESCRIBE" ∷ "DESCRIPTOR"
    ∷ "DESTROY" ∷ "DESTRUCTOR" ∷ "DETERMINISTIC" ∷ "DIAGNOSTICS" ∷ "DICTIONARY" ∷ "DISABLE"
    ∷ "DISCONNECT" ∷ "DISK" ∷ "DISPATCH" ∷ "DISTINCT" ∷ "DISTINCTROW" ∷ "DISTRIBUTED" ∷ "DIV" ∷ "DO"
    ∷ "DOMAIN" ∷ "DOUBLE" ∷ "DROP" ∷ "DUAL" ∷ "DUMMY" ∷ "DUMP" ∷ "DYNAMIC" ∷ "DYNAMIC_FUNCTION"
    ∷ "DYNAMIC_FUNCTION_CODE" ∷ "EACH" ∷ "ELEMENT" ∷ "ELSE" ∷ "ELSEIF" ∷ "ENABLE" ∷ "ENCLOSED"
    ∷ "ENCODING" ∷ "ENCRYPTED" ∷ "END" ∷ "END-EXEC" ∷ "ENUM" ∷ "EQUALS" ∷ "ERRLVL" ∷ "ESCAPE"
    ∷ "ESCAPED" ∷ "EVERY" ∷ "EXCEPT" ∷ "EXCEPTION" ∷ "EXCLUDE" ∷ "EXCLUDING" ∷ "EXCLUSIVE" ∷ "EXEC"
    ∷ "EXECUTE" ∷ "EXISTING" ∷ "EXISTS" ∷ "EXIT" ∷ "EXP" ∷ "EXPLAIN" ∷ "EXTERNAL" ∷ "EXTRACT"
    ∷ "FALSE" ∷ "FETCH" ∷ "FIELDS" ∷ "FILE" ∷ "FILLFACTOR" ∷ "FILTER" ∷ "FINAL" ∷ "FIRST" ∷ "FLOAT"
    ∷ "FLOAT4" ∷ "FLOAT8" ∷ "FLOOR" ∷ "FLUSH" ∷ "FOLLOWING" ∷ "FOR" ∷ "FORCE" ∷ "FOREIGN"
    ∷ "FORTRAN" ∷ "FORWARD" ∷ "FOUND" ∷ "FREE" ∷ "FREETEXT" ∷ "FREETEXTTABLE" ∷ "FREEZE" ∷ "FROM"
    ∷ "FULL" ∷ "FULLTEXT" ∷ "FUNCTION" ∷ "FUSION" ∷ "G" ∷ []
