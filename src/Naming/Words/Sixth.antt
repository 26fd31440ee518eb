-- ===== src/Naming/Words/Sixth.antt =====
-- Lines 710 to 844 of src/dbextractors/core/_reserved_words.py.
use dbextractors.Base.{String, List, [], ◌∷◌}

unfoldable pub sixth_words : List String
sixth_words =
    "STDIN" ∷ "STDOUT" ∷ "STORAGE" ∷ "STRAIGHT_JOIN" ∷ "STRICT" ∷ "STRING" ∷ "STRUCTURE" ∷ "STYLE"
    ∷ "SUBCLASS_ORIGIN" ∷ "SUBLIST" ∷ "SUBMULTISET" ∷ "SUBSTRING" ∷ "SUCCESSFUL" ∷ "SUM"
    ∷ "SUPERUSER" ∷ "SYMMETRIC" ∷ "SYNONYM" ∷ "SYSDATE" ∷ "SYSID" ∷ "SYSTEM" ∷ "SYSTEM_USER"
    ∷ "TABLE" ∷ "TABLE_NAME" ∷ "TABLES" ∷ "TABLESAMPLE" ∷ "TABLESPACE" ∷ "TEMP" ∷ "TEMPLATE"
    ∷ "TEMPORARY" ∷ "TERMINATE" ∷ "TERMINATED" ∷ "TEXT" ∷ "TEXTSIZE" ∷ "THAN" ∷ "THEN" ∷ "TIES"
    ∷ "TIME" ∷ "TIMESTAMP" ∷ "TIMEZONE_HOUR" ∷ "TIMEZONE_MINUTE" ∷ "TINYBLOB" ∷ "TINYINT"
    ∷ "TINYTEXT" ∷ "TO" ∷ "TOAST" ∷ "TOP" ∷ "TOP_LEVEL_COUNT" ∷ "TRAILING" ∷ "TRAN" ∷ "TRANSACTION"
    ∷ "TRANSACTION_ACTIVE" ∷ "TRANSACTIONS_COMMITTED" ∷ "TRANSACTIONS_ROLLED_BACK" ∷ "TRANSFORM"
    ∷ "TRANSFORMS" ∷ "TRANSLATE" ∷ "TRANSLATION" ∷ "TREAT" ∷ "TRIGGER" ∷ "TRIGGER_CATALOG"
    ∷ "TRIGGER_NAME" ∷ "TRIGGER_SCHEMA" ∷ "TRIM" ∷ "TRUE" ∷ "TRUNCATE" ∷ "TRUSTED" ∷ "TSEQUAL"
    ∷ "TYPE" ∷ "UESCAPE" ∷ "UID" ∷ "UNBOUNDED" ∷ "UNCOMMITTED" ∷ "UNDER" ∷ "UNDO" ∷ "UNENCRYPTED"
    ∷ "UNION" ∷ "UNIQUE" ∷ "UNKNOWN" ∷ "UNLISTEN" ∷ "UNLOCK" ∷ "UNNAMED" ∷ "UNNEST" ∷ "UNSIGNED"
    ∷ "UNTIL" ∷ "UPDATE" ∷ "UPDATETEXT" ∷ "UPPER" ∷ "USAGE" ∷ "USE" ∷ "USER"
    ∷ "USER_DEFINED_TYPE_CATALOG" ∷ "USER_DEFINED_TYPE_CODE" ∷ "USER_DEFINED_TYPE_NAME"
    ∷ "USER_DEFINED_TYPE_SCHEMA" ∷ "USING" ∷ "UTC_DATE" ∷ "UTC_TIME" ∷ "UTC_TIMESTAMP" ∷ "VACUUM"
    ∷ "VALID" ∷ "VALIDATE" ∷ "VALIDATOR" ∷ "VALUE" ∷ "VALUES" ∷ "VAR_POP" ∷ "VAR_SAMP" ∷ "VARBINARY"
    ∷ "VARCHAR" ∷ "VARCHAR2" ∷ "VARCHARACTER" ∷ "VARIABLE" ∷ "VARIABLES" ∷ "VARYING" ∷ "VERBOSE"
    ∷ "VIEW" ∷ "VOLATILE" ∷ "WAITFOR" ∷ "WHEN" ∷ "WHENEVER" ∷ "WHERE" ∷ "WHILE" ∷ "WIDTH_BUCKET"
    ∷ "WINDOW" ∷ "WITH" ∷ "WITHIN" ∷ "WITHOUT" ∷ "WORK" ∷ "WRITE" ∷ "WRITETEXT" ∷ "X509" ∷ "XOR"
    ∷ "YEAR" ∷ "YEAR_MONTH" ∷ "ZEROFILL" ∷ "ZONE" ∷ []
