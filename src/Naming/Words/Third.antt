-- ===== src/Naming/Words/Third.antt =====
-- Lines 296 to 433 of src/dbextractors/core/_reserved_words.py.
use dbextractors.Base.{String, List, [], ◌∷◌}

unfoldable pub third_words : List String
third_words =
    "GENERAL" ∷ "GENERATED" ∷ "GET" ∷ "GLOBAL" ∷ "GO" ∷ "GOTO" ∷ "GRANT" ∷ "GRANTED" ∷ "GRANTS"
    ∷ "GREATEST" ∷ "GROUP" ∷ "GROUPING" ∷ "HANDLER" ∷ "HAVING" ∷ "HEADER" ∷ "HEAP" ∷ "HIERARCHY"
    ∷ "HIGH_PRIORITY" ∷ "HOLD" ∷ "HOLDLOCK" ∷ "HOST" ∷ "HOSTS" ∷ "HOUR" ∷ "HOUR_MICROSECOND"
    ∷ "HOUR_MINUTE" ∷ "HOUR_SECOND" ∷ "IDENTIFIED" ∷ "IDENTITY" ∷ "IDENTITY_INSERT" ∷ "IDENTITYCOL"
    ∷ "IF" ∷ "IGNORE" ∷ "ILIKE" ∷ "IMMEDIATE" ∷ "IMMUTABLE" ∷ "IMPLEMENTATION" ∷ "IMPLICIT" ∷ "IN"
    ∷ "INCLUDE" ∷ "INCLUDING" ∷ "INCREMENT" ∷ "INDEX" ∷ "INDICATOR" ∷ "INFILE" ∷ "INFIX" ∷ "INHERIT"
    ∷ "INHERITS" ∷ "INITIAL" ∷ "INITIALIZE" ∷ "INITIALLY" ∷ "INNER" ∷ "INOUT" ∷ "INPUT"
    ∷ "INSENSITIVE" ∷ "INSERT" ∷ "INSERT_ID" ∷ "INSTANCE" ∷ "INSTANTIABLE" ∷ "INSTEAD" ∷ "INT"
    ∷ "INT1" ∷ "INT2" ∷ "INT3" ∷ "INT4" ∷ "INT8" ∷ "INTEGER" ∷ "INTERSECT" ∷ "INTERSECTION"
    ∷ "INTERVAL" ∷ "INTO" ∷ "INVOKER" ∷ "IS" ∷ "ISAM" ∷ "ISNULL" ∷ "ISOLATION" ∷ "ITERATE" ∷ "JOIN"
    ∷ "K" ∷ "KEY" ∷ "KEY_MEMBER" ∷ "KEY_TYPE" ∷ "KEYS" ∷ "KILL" ∷ "LANCOMPILER" ∷ "LANGUAGE"
    ∷ "LARGE" ∷ "LAST" ∷ "LAST_INSERT_ID" ∷ "LATERAL" ∷ "LEADING" ∷ "LEAST" ∷ "LEAVE" ∷ "LEFT"
    ∷ "LENGTH" ∷ "LESS" ∷ "LEVEL" ∷ "LIKE" ∷ "LIMIT" ∷ "LINENO" ∷ "LINES" ∷ "LISTEN" ∷ "LN" ∷ "LOAD"
    ∷ "LOCAL" ∷ "LOCALTIME" ∷ "LOCALTIMESTAMP" ∷ "LOCATION" ∷ "LOCATOR" ∷ "LOCK" ∷ "LOGIN" ∷ "LOGS"
    ∷ "LONG" ∷ "LONGBLOB" ∷ "LONGTEXT" ∷ "LOOP" ∷ "LOW_PRIORITY" ∷ "LOWER" ∷ "M" ∷ "MAP" ∷ "MATCH"
    ∷ "MATCHED" ∷ "MAX" ∷ "MAX_ROWS" ∷ "MAXEXTENTS" ∷ "MAXVALUE" ∷ "MEDIUMBLOB" ∷ "MEDIUMINT"
    ∷ "MEDIUMTEXT" ∷ "MEMBER" ∷ "MERGE" ∷ "MESSAGE_LENGTH" ∷ "MESSAGE_OCTET_LENGTH" ∷ "MESSAGE_TEXT"
    ∷ "METHOD" ∷ "MIDDLEINT" ∷ "MIN" ∷ "MIN_ROWS" ∷ "MINUS" ∷ []
